-- ===== src/Wifi/Tests.antt =====
-- The theorems on components/sys/wifi.c at concrete events.
use Prim.{tt}
use rfmarkit_esp_node.Base.{◌+◌, ◌≤◌, ◌≡◌, arith, true, false, some, List, [], ◌∷◌}
use rfmarkit_esp_node.Node.{Node}
use rfmarkit_esp_node.Node.Example.{a_node}
use rfmarkit_esp_node.Wifi.{
  Wifi, WifiEvent, sta_start, sta_disconnected, got_ip, sys_wifi_reconnect_event_handler,
  run_events,
}
use rfmarkit_esp_node.Wifi.Retry.{reports, IsOutcome, reconnect-returns, run_events-budget}

abbrev idle : Wifi
idle = record { s_wifi_retry_num = 5; connected_bit = false; fail_bit = true; connects = 0 }

abbrev three_losses : List WifiEvent
three_losses = sta_disconnected ∷ sta_disconnected ∷ sta_disconnected ∷ []

reconnect-returns_example :
    (w' : Wifi) × (n' : Node) × (sys_wifi_reconnect_event_handler 2
        (sta_start ∷ three_losses)
        idle
        a_node
      ≡ some (w', n'))
    × (n'.task_wifi_reconnect ≡ false)
    × (w'.connects ≤ idle.connects + 1 + 2)
    × IsOutcome a_node n'
unfolding reports
reconnect-returns_example = reconnect-returns 2 three_losses idle a_node tt (omega arith)

run_events-budget_example :
    (run_events 5 (got_ip ∷ three_losses) idle).connects
      + (run_events 5 (got_ip ∷ three_losses) idle).s_wifi_retry_num
    ≡ 0 + 5
run_events-budget_example = run_events-budget 5 (got_ip ∷ three_losses) idle tt
