-- ===== src/Loop.antt =====
-- components/apps/system_loop.c: the events of the node are turned into events of the system loop, whose handlers
-- components/sys has. `xEventGroupWaitBits` clears the bits that it returns.
pub mod Pending
pub mod Lost
mod Tests
use rfmarkit_esp_node.Base.{
  ℕ, ◌+◌, Bool, true, false, not, ◌&&◌, ◌||◌, List, [], ◌∷◌, ◌==◌, if◌then◌else◌,
}
use rfmarkit_esp_node.Esp.{EspErr, is_ok}
use rfmarkit_esp_node.Power.{PowerState, power_save, state_number}
use rfmarkit_esp_node.LedStatus.{McuState, sys_led_status_handler}
use rfmarkit_esp_node.Node.{
  Node, SysEvent, wifi_config_updated, wifi_connected, wifi_disconnected, wifi_fail, ntp_synced,
  discovery_completed, led_status_changed, ota_triggered, mode_change, power_mgmt, LoopEvent,
  time_sync_event, discovery_event, led_status_event, wifi_reconnect_event, mode_change_event,
  power_mgmt_event, ota_event, call, restart, post, sys_set_operation_mode,
}

-- the number of an event's bit
unfoldable pub bit : SysEvent → ℕ
bit wifi_config_updated = 0
bit wifi_connected = 1
bit wifi_disconnected = 2
bit wifi_fail = 3
bit ntp_synced = 4
bit discovery_completed = 5
bit led_status_changed = 6
bit ota_triggered = 7
bit mode_change = 8
bit power_mgmt = 9

unfoldable pub has : SysEvent → List SysEvent → Bool
unfolding bit
has e [] = false
has e (x ∷ xs) = let rest = has e xs in if bit x == bit e then true else rest

-- `discovery_timer_cb`, `time_sync_timer_cb` and `power_mgmt_timer_cb`
unfoldable pub discovery_timer_cb : Node → Node
unfolding post
discovery_timer_cb n = if n.wifi_connected then post discovery_event n else n

unfoldable pub time_sync_timer_cb : Node → Node
unfolding post
time_sync_timer_cb n =
    if (n.wifi_connected && not n.task_time_sync) || not n.ntp_synced
    then post time_sync_event (record n { task_time_sync = true })
    else n

unfoldable pub power_mgmt_timer_cb : Node → Node
unfolding post state_number
power_mgmt_timer_cb n =
    if state_number n.power.state == state_number power_save then n else post power_mgmt_event n

-- `sys_ota_perform` of components/sys/sys.c; `ret` is what `esp_https_ota` returns
unfoldable pub sys_ota_perform : EspErr → Node → Node
unfolding call
sys_ota_perform ret n =
    if is_ok ret
    then call restart n
    else record n { ota_err = ret; power = record n.power { no_sleep = false } }

-- The parts of a round of `app_system_loop`, with the bits that it waited for.
unfoldable pub on_connected : List SysEvent → Node → Node
unfolding has post
on_connected bits n =
    if has wifi_connected bits then post discovery_event (post time_sync_event n) else n

unfoldable pub on_disconnected : List SysEvent → Node → Node
unfolding has post
on_disconnected bits n =
    if has wifi_disconnected bits || (has wifi_fail bits || has wifi_config_updated bits)
    then (if n.task_wifi_reconnect
        then n
        else post wifi_reconnect_event (record n { task_wifi_reconnect = true }))
    else n

unfoldable pub on_ota : EspErr → List SysEvent → Node → Node
unfolding has post sys_set_operation_mode sys_ota_perform
on_ota ret bits n =
    if has ota_triggered bits
    then sys_ota_perform ret (sys_set_operation_mode false (post ota_event n))
    else n

unfoldable pub on_power_mgmt : List SysEvent → Node → Node
unfolding has post
on_power_mgmt bits n = if has power_mgmt bits then post power_mgmt_event n else n

unfoldable pub on_mode_change : List SysEvent → Node → Node
unfolding has post
on_mode_change bits n = if has mode_change bits then post mode_change_event n else n

unfoldable pub on_led : Node → Node
unfolding post
on_led n =
    if not n.task_led_status && not n.led_manual
    then post led_status_event (record n { task_led_status = true })
    else n

-- The part before and with the update, and the part after it, which a restart does not reach.
unfoldable pub first_part : EspErr → List SysEvent → Node → Node
unfolding on_connected on_disconnected on_ota
first_part ret bits n = on_ota ret bits (on_disconnected bits (on_connected bits n))

unfoldable pub second_part : List SysEvent → Node → Node
unfolding on_power_mgmt on_mode_change on_led
second_part bits n = on_led (on_mode_change bits (on_power_mgmt bits n))

-- A round of `app_system_loop` for the bits that are set; `ret` is what an update would return.
unfoldable pub loop_round : EspErr → Node → Node
unfolding first_part second_part has
loop_round ret n =
    let m = first_part ret n.sys_events (record n { sys_events = [] }) in
    if has ota_triggered n.sys_events && is_ok ret then m else second_part n.sys_events m

-- `sys_led_status_handler` of components/sys/led_status.c on the node
unfoldable pub led_status_handler : Node → Node
unfolding sys_led_status_handler
led_status_handler n = record n {
  blink =
      sys_led_status_handler
        (record {
          wifi_connected = n.wifi_connected;
          ntp_synced = n.ntp_synced;
          discovery_completed = n.discovery_completed;
          active = n.active;
        })
        n.blink;
  task_led_status = false;
}
