-- ===== src/Loop/Tests.antt =====
-- The theorems on components/apps/system_loop.c at a concrete run: a loss of the connection, and a failure.
use rfmarkit_esp_node.Base.{◌≡◌, refl, false, [], ◌∷◌}
use rfmarkit_esp_node.Esp.{fail}
use rfmarkit_esp_node.Node.{Node, led_status_event}
use rfmarkit_esp_node.Node.Example.{a_node}
use rfmarkit_esp_node.Wifi.{report_attempt, clear_wifi_reconnect}
use rfmarkit_esp_node.Loop.{loop_round}
use rfmarkit_esp_node.Loop.Pending.{
  is_reconnect, count, IsPending, Reachable, start, next, round, outside, Reachable-IsPending,
}
use rfmarkit_esp_node.Loop.Lost.{reconnect-lost}

a_node-Reachable : Reachable a_node
a_node-Reachable = start a_node refl refl refl

abbrev trying : Node
trying = loop_round fail a_node

trying-Reachable : Reachable trying
trying-Reachable = next a_node trying a_node-Reachable (round fail a_node)

Reachable-IsPending_example : IsPending (loop_round fail a_node)
Reachable-IsPending_example = Reachable-IsPending trying-Reachable

reported-Reachable : Reachable (report_attempt fail trying)
unfolding report_attempt
reported-Reachable =
    next _ _ trying-Reachable
      (outside trying _ (record { posted = refl; reconnect = refl; led = refl }))

reconnect-lost_example :
    (count is_reconnect (led_status_event ∷ []) ≡ 0)
    × ((clear_wifi_reconnect (record (loop_round fail (report_attempt fail trying)) {
      posted = led_status_event ∷ [];
    })).task_wifi_reconnect
        ≡ false)
    × ((loop_round fail (report_attempt fail trying)).sys_events ≡ [])
unfolding loop_round report_attempt
reconnect-lost_example =
    reconnect-lost fail trying (led_status_event ∷ []) reported-Reachable refl refl refl
