-- ===== src/Loop/Lost.antt =====
-- components/apps/system_loop.c and components/sys/wifi.c: a failure that the loop sees before the bit of the task is
-- cleared.
use rfmarkit_esp_node.Base.{
  ◌≡◌, ◌∙◌, refl, sym, ap, arith, Bool, true, false, ◌&&◌, ◌||◌, List, [], ◌∷◌, if◌then◌else◌,
}
use mathlib.Core.Bool.{true≢false}
use rfmarkit_esp_node.Esp.{EspErr, fail, is_ok}
use rfmarkit_esp_node.Node.{
  Node, SysEvent, LoopEvent, wifi_fail, wifi_disconnected, wifi_config_updated, call, set_sys_event,
  sys_set_operation_mode, wifi_reconnect_event, ota_triggered, post,
}
use rfmarkit_esp_node.Wifi.{report_attempt, clear_wifi_reconnect}
use rfmarkit_esp_node.Loop.Pending.{
  is_reconnect, count, Reachable, next, round, Reachable-IsPending,
}
use rfmarkit_esp_node.Loop.{
  has, sys_ota_perform, on_connected, on_disconnected, on_ota, on_power_mgmt, on_mode_change,
  on_led, first_part, second_part, loop_round,
}

second_part-task :
    (bits : List SysEvent) (n : Node)
    → (second_part bits n).task_wifi_reconnect ≡ n.task_wifi_reconnect
unfolding second_part on_power_mgmt on_mode_change on_led post
second_part-task bits n = ground arith

second_part-events :
    (bits : List SysEvent) (n : Node) → (second_part bits n).sys_events ≡ n.sys_events
unfolding second_part on_power_mgmt on_mode_change on_led post
second_part-events bits n = ground arith

on_disconnected-task :
    (bits : List SysEvent) (n : Node)
    → (on_disconnected bits n).task_wifi_reconnect ≡ (
        n.task_wifi_reconnect
        || (has wifi_disconnected bits || (has wifi_fail bits || has wifi_config_updated bits)))
unfolding on_disconnected post
on_disconnected-task bits n = ground arith

first_part-task :
    (ret : EspErr) (bits : List SysEvent) (n : Node)
    → (first_part ret bits n).task_wifi_reconnect ≡ (
        n.task_wifi_reconnect
        || (has wifi_disconnected bits || (has wifi_fail bits || has wifi_config_updated bits)))
unfolding first_part on_ota on_connected sys_ota_perform sys_set_operation_mode set_sys_event post
    call
first_part-task ret bits n = ground (arith, on_disconnected-task bits (on_connected bits n))

first_part-events :
    (ret : EspErr) (bits : List SysEvent) (n : Node)
    → has ota_triggered bits ≡ false
    → (first_part ret bits n).sys_events ≡ n.sys_events
unfolding first_part on_ota on_connected on_disconnected post
first_part-events ret bits n no_ota = ground arith

loop_round-task :
    (ret : EspErr) (n : Node)
    → (loop_round ret n).task_wifi_reconnect ≡ (
        n.task_wifi_reconnect
        || (has wifi_disconnected n.sys_events
            || (has wifi_fail n.sys_events || has wifi_config_updated n.sys_events)))
unfolding loop_round
loop_round-task ret n = ground (
  arith,
  first_part-task ret n.sys_events (record n { sys_events = [] }),
  second_part-task n.sys_events (first_part ret n.sys_events (record n { sys_events = [] })),
)

events_if :
    (t : Bool) (a b : Node) → t ≡ false → b.sys_events ≡ [] → (if t then a else b).sys_events ≡ []
events_if true a b e h = absurd (true≢false e)
events_if false a b e h = h

loop_round-events :
    (ret : EspErr) (n : Node)
    → has ota_triggered n.sys_events ≡ false
    → (loop_round ret n).sys_events ≡ []
unfolding loop_round
loop_round-events ret n no_ota =
    events_if (has ota_triggered n.sys_events && is_ok ret) _ _ (rw no_ota refl) (
      second_part-events n.sys_events (first_part ret n.sys_events (record n { sys_events = [] }))
      ∙ first_part-events ret n.sys_events (record n { sys_events = [] }) no_ota)

some_lost : (t u : Bool) → (t || (u || (true || false))) ≡ true
some_lost true u = refl
some_lost false true = refl
some_lost false false = refl

failure-task :
    (ret : EspErr) (n : Node)
    → (loop_round ret (clear_wifi_reconnect (report_attempt fail n))).task_wifi_reconnect ≡ true
unfolding clear_wifi_reconnect report_attempt set_sys_event has
failure-task ret n =
    loop_round-task ret (clear_wifi_reconnect (report_attempt fail n))
    ∙ some_lost ((clear_wifi_reconnect (report_attempt fail n)).task_wifi_reconnect)
        (has wifi_disconnected (clear_wifi_reconnect (report_attempt fail n)).sys_events)

busy-task :
    (ret : EspErr) (n : Node)
    → n.task_wifi_reconnect ≡ true
    → (loop_round ret (report_attempt fail n)).task_wifi_reconnect ≡ true
unfolding report_attempt set_sys_event
busy-task ret n busy = loop_round-task ret (report_attempt fail n) ∙ rw busy refl

-- A reconnection that failed is tried again if the loop runs after its handler has ended: from a state that the node
-- reaches, one more reconnection is then pending.
reconnect-again :
    (ret : EspErr) (n : Node)
    → Reachable (clear_wifi_reconnect (report_attempt fail n))
    → count is_reconnect (loop_round ret (clear_wifi_reconnect (report_attempt fail n))).posted ≡ 1
reconnect-again ret n reached =
    (Reachable-IsPending (next _ _ reached (round ret _))).reconnect
    ∙ ap (λ (t : Bool). if t then 1 else 0) (failure-task ret n)

only_one :
    (q : List LoopEvent)
    → count is_reconnect (wifi_reconnect_event ∷ q) ≡ 1
    → count is_reconnect q ≡ 0
unfolding count is_reconnect
only_one q e = omega (arith, e)

other_event :
    (n : Node)
    → has ota_triggered n.sys_events ≡ false
    → has ota_triggered (report_attempt fail n).sys_events ≡ false
unfolding report_attempt set_sys_event has
other_event n e = e

-- A reconnection that failed is lost if the loop runs between the report of the failure and the clearing of the bit: once
-- the handler has ended, no reconnection is pending, its bit is clear, and no event is left that would post one.
pub reconnect-lost :
    (ret : EspErr) (n : Node) (q : List LoopEvent)
    → Reachable (report_attempt fail n)
    → n.task_wifi_reconnect ≡ true
    → has ota_triggered n.sys_events ≡ false
    → (loop_round ret (report_attempt fail n)).posted ≡ wifi_reconnect_event ∷ q
    → (count is_reconnect q ≡ 0)
      × ((clear_wifi_reconnect
            (record (loop_round ret (report_attempt fail n)) { posted = q })).task_wifi_reconnect
          ≡ false)
      × ((loop_round ret (report_attempt fail n)).sys_events ≡ [])
unfolding clear_wifi_reconnect
reconnect-lost ret n q reached busy no_ota at = (
  only_one q (
      sym (ap (count is_reconnect) at)
      ∙ (Reachable-IsPending (next _ _ reached (round ret _))).reconnect
      ∙ ap (λ (t : Bool). if t then 1 else 0) (busy-task ret n busy)),
  refl,
  loop_round-events ret (report_attempt fail n) (other_event n no_ota),
)
