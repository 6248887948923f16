-- ===== src/Wifi.antt =====
-- components/sys/wifi.c: the connection to the access point. The events of the Wi-Fi driver are a list; the driver's
-- calls are recorded, the latest first.
pub mod Retry
mod Tests
use rfmarkit_esp_node.Base.{
  ℕ, zero, suc, ◌+◌, ◌-◌, Bool, true, false, ◌||◌, ◌&&◌, Option, none, some, List, [], ◌∷◌, ltb,
  length, if◌then◌else◌,
}
use rfmarkit_esp_node.Base.OptionDo.{◌>>=◌}
use rfmarkit_esp_node.Esp.{EspErr, ok, fail, is_ok}
use rfmarkit_esp_node.Node.{
  Node, SysEvent, wifi_connected, wifi_disconnected, wifi_fail, wifi_config_updated, ntp_synced,
  discovery_completed, led_status_changed, ota_triggered, mode_change, power_mgmt, set_sys_event,
  call, wifi_disconnect, wifi_stop, wifi_set_config, wifi_start,
}

pub data WifiEvent : Type 0 where
  sta_start sta_disconnected got_ip other_event : WifiEvent

-- `s_wifi_retry_num` and the two bits of `g_mcu.wifi_event_group`; `connects` counts the calls of `esp_wifi_connect`.
pub record Wifi : Type 0 where
  pub s_wifi_retry_num : ℕ
  pub connected_bit : Bool
  pub fail_bit : Bool
  pub connects : ℕ

-- `wifi_event_handler`, with `CONFIG_WIFI_MAX_RETRY`
unfoldable pub wifi_event_handler : ℕ → WifiEvent → Wifi → Wifi
wifi_event_handler max_retry sta_start w = record w {
  connects = w.connects + 1;
  s_wifi_retry_num = max_retry;
}
wifi_event_handler max_retry sta_disconnected w =
    if ltb 0 w.s_wifi_retry_num
    then record w { connects = w.connects + 1; s_wifi_retry_num = w.s_wifi_retry_num - 1 }
    else record w { fail_bit = true }
wifi_event_handler max_retry got_ip w = record w { connected_bit = true }
wifi_event_handler max_retry other_event w = w

-- The events of a connection that nobody waits for.
unfoldable pub run_events : ℕ → List WifiEvent → Wifi → Wifi
unfolding wifi_event_handler
run_events max_retry [] w = w
run_events max_retry (e ∷ es) w = run_events max_retry es (wifi_event_handler max_retry e w)

-- The wait in `sys_wifi_try_connect`: until one of the two bits is set; none where the events end before that.
unfoldable pub wait_bits : ℕ → List WifiEvent → Wifi → Option Wifi
unfolding wifi_event_handler
wait_bits max_retry [] w = if w.connected_bit || w.fail_bit then some w else none
wait_bits max_retry (e ∷ es) w =
    let rest = wait_bits max_retry es (wifi_event_handler max_retry e w) in
    if w.connected_bit || w.fail_bit then some w else rest

-- `sys_wifi_try_connect`
unfoldable pub sys_wifi_try_connect :
    ℕ → List WifiEvent → Wifi → Node → Option (EspErr × Wifi × Node)
unfolding wait_bits set_sys_event call
sys_wifi_try_connect max_retry events w n = do
  w' ← wait_bits max_retry events (record w { connected_bit = false; fail_bit = false })
  some (
      if w'.connected_bit
      then (
        ok,
        w',
        set_sys_event wifi_connected
            (record (call wifi_start (call wifi_set_config n)) { wifi_connected = true }),
      )
      else (fail, w', record (call wifi_start (call wifi_set_config n)) { wifi_connected = false }))

-- `sys_wifi_try_disconnect`
unfoldable pub sys_wifi_try_disconnect : Node → Node
unfolding set_sys_event call
sys_wifi_try_disconnect n =
    set_sys_event wifi_disconnected
      (record (call wifi_stop (call wifi_disconnect n)) { wifi_connected = false })

unfoldable pub is_wifi_fail : SysEvent → Bool
is_wifi_fail wifi_fail = true
is_wifi_fail _ = false

unfoldable pub without_wifi_fail : List SysEvent → List SysEvent
unfolding is_wifi_fail
without_wifi_fail [] = []
without_wifi_fail (e ∷ es) =
    let rest = without_wifi_fail es in if is_wifi_fail e then rest else e ∷ rest

-- What follows the attempt in `sys_wifi_reconnect_event_handler`: the event of a failure, and then the bit of the task.
unfoldable pub report_attempt : EspErr → Node → Node
unfolding set_sys_event without_wifi_fail
report_attempt ret n =
    if is_ok ret
    then record n { sys_events = without_wifi_fail n.sys_events }
    else set_sys_event wifi_fail n

unfoldable pub clear_wifi_reconnect : Node → Node
clear_wifi_reconnect n = record n { task_wifi_reconnect = false }

-- `sys_wifi_reconnect_event_handler`, under its mutex
unfoldable pub sys_wifi_reconnect_event_handler :
    ℕ → List WifiEvent → Wifi → Node → Option (Wifi × Node)
unfolding sys_wifi_try_disconnect sys_wifi_try_connect report_attempt clear_wifi_reconnect
sys_wifi_reconnect_event_handler max_retry events w n = do
  attempt ← sys_wifi_try_connect max_retry events w (sys_wifi_try_disconnect n)
  some (attempt.1, clear_wifi_reconnect (report_attempt attempt.0 attempt.2))

-- The part of `wifi_config_t` that the firmware sets.
pub record StaConfig : Type 0 where
  pub ssid : List ℕ
  pub password : List ℕ

-- `sys_wifi_prepare_config`, for the sizes of the two arrays in ESP-IDF; none where `strcpy` writes past one
unfoldable pub sys_wifi_prepare_config :
    (ssid_size password_size : ℕ) → List ℕ → List ℕ → Option StaConfig
sys_wifi_prepare_config ssid_size password_size ssid psk =
    if ltb (length ssid) ssid_size && ltb (length psk) password_size
    then some (record { ssid = ssid; password = psk })
    else none
