-- ===== src/LedStatus.antt =====
-- components/sys/led_status.c: the status that the LED shows, from the state of the node.
pub mod Shown
use rfmarkit_esp_node.Base.{ℕ, Bool, true, false, not, ◌||◌, ◌==◌, if◌then◌else◌}
use rfmarkit_esp_node.Esp.{EspErr, ok, fail}
use rfmarkit_esp_node.Blink.{
  Blink, LedStatus, led_unknown, led_off, led_on, led_duty, led_fast_flash, led_fast_breath,
  led_slow_breath, led_seq_enc, number, blink_led_off, blink_led_on, blink_led_fast_flash,
  blink_led_start_fast_breath_pattern, blink_led_start_slow_breath_pattern,
  blink_start_seq_enc_pattern,
}

-- The members of `g_mcu.state` that the handler reads.
pub record McuState : Type 0 where
  pub wifi_connected : Bool
  pub ntp_synced : Bool
  pub discovery_completed : Bool
  pub active : Bool

-- `get_target_led_status`
unfoldable pub get_target_led_status : McuState → LedStatus
get_target_led_status state =
    if not state.wifi_connected
    then led_fast_flash
    else if not state.ntp_synced || not state.discovery_completed
    then led_fast_breath
    else if state.active
    then led_on
    else led_slow_breath

-- `sys_set_led_status`
unfoldable pub sys_set_led_status : LedStatus → Blink → EspErr × Blink
sys_set_led_status led_on b = (ok, blink_led_on b)
sys_set_led_status led_off b = (ok, blink_led_off b)
sys_set_led_status led_fast_flash b = (ok, blink_led_fast_flash b)
sys_set_led_status led_fast_breath b = (ok, blink_led_start_fast_breath_pattern b)
sys_set_led_status led_slow_breath b = (ok, blink_led_start_slow_breath_pattern b)
sys_set_led_status led_seq_enc b = (ok, blink_start_seq_enc_pattern b)
sys_set_led_status led_unknown b = (fail, b)
sys_set_led_status led_duty b = (fail, b)

-- `sys_led_status_handler`; `EV_TASK_LED_STATUS` is cleared on both paths
unfoldable pub sys_led_status_handler : McuState → Blink → Blink
unfolding sys_set_led_status get_target_led_status number
sys_led_status_handler state b =
    if number (get_target_led_status state) == number b.led_status
    then b
    else (sys_set_led_status (get_target_led_status state) b).1
