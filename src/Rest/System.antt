-- ===== src/Rest/System.antt =====
-- The handlers of components/rest_controller/rest_controller_handlers.c for the system.
use Prim.Native.String.{String}
use rfmarkit_esp_node.Base.{none, [], ◌∷◌, length, ltb, ◌==◌, if◌then◌else◌}
use rfmarkit_esp_node.Base.OptionDo.{◌>>=◌}
use rfmarkit_esp_node.Base.Text.{same_text}
use rfmarkit_esp_node.Base.Int.{ℤ, pos, negsuc}
use rfmarkit_esp_node.Esp.{
  EspErr, ok, fail, no_mem, invalid_arg, not_found, rollback_invalid_state, other,
}
use rfmarkit_esp_node.Power.{
  PowerMode, power_mode_performance, power_mode_normal, power_mode_low_energy,
}
use rfmarkit_esp_node.Nvs.{var_names}
use rfmarkit_esp_node.Node.{
  Node, call, set_sys_event, start_reboot_timer, start_shutdown_timer, ota_triggered,
}
use rfmarkit_esp_node.Rest.Request.{
  by_method, Request, str, text, number, seconds, flag, names, Result, touch, respond, param,
}
use rfmarkit_esp_node.Rest.Words.{target_state_key, ota_url_key, reboot_text, shutdown_text}

-- What the chip answers: the firmware's version, the time, the timer of the access point and the battery.
pub record Chip : Type 0 where
  pub version : String
  pub tv_sec : ℤ
  pub tv_usec : ℤ
  pub tsf_time : ℤ
  pub battery_level : ℤ

-- `system_info_handler`
unfoldable pub system_info_handler : Chip → Request → Node → Result
unfolding touch respond
system_info_handler chip req n =
    respond 200
      (("id", text n.device_id)
        ∷ ("ver", str chip.version)
        ∷ ("time", seconds chip.tv_sec chip.tv_usec)
        ∷ ("tsf_time", number chip.tsf_time)
        ∷ ("battery_level", number chip.battery_level)
        ∷ ("target_fps", number n.target_fps)
        ∷ [])
      (touch n)

-- `system_power_handler`: the timer is started after the response
unfoldable pub system_power_handler : Request → Node → Result
unfolding touch respond param same_text call
system_power_handler req n = do
  target_state ← param 129 req target_state_key
  if same_text target_state reboot_text
      then respond 200 (("target_state", text target_state) ∷ ("status", str "ok") ∷ [])
          (call start_reboot_timer (touch n))
      else if same_text target_state shutdown_text
      then respond 200 (("target_state", text target_state) ∷ ("status", str "ok") ∷ [])
          (call start_shutdown_timer (touch n))
      else respond 400
          (("target_state", text target_state) ∷ ("status", str "invalid target_state value") ∷ [])
          (touch n)

-- the number of an error code
unfoldable pub err_number : EspErr → ℤ
err_number ok = pos 0
err_number fail = negsuc 0
err_number no_mem = pos 0x101
err_number invalid_arg = pos 0x102
err_number not_found = pos 0x105
err_number rollback_invalid_state = pos 0x1505
err_number (other k) = pos k

-- `system_upgrade_handler`; `strcpy` into the 128 bytes of `g_mcu.ota_url` needs room for the terminator
unfoldable pub system_upgrade_handler : Request → Node → Result
unfolding touch respond param err_number set_sys_event
system_upgrade_handler req n =
    by_method req.method (respond 200 (("ota_err", number (err_number n.ota_err)) ∷ []) (touch n))
      (do
        ota_url ← param 129 req ota_url_key
        if length ota_url == 0
            then respond 500 (("ota_url", text ota_url) ∷ ("status", str "empty ota_url") ∷ [])
                (touch n)
            else if ltb (length ota_url) 128
            then respond 200 (("ota_url", text ota_url) ∷ [])
                (set_sys_event ota_triggered (record (touch n) { ota_url = ota_url }))
            else none)
      (respond 400 (("status", str "invalid method") ∷ []) (touch n))

-- `system_selftest_handler` and `imu_calibrate_handler`
unfoldable pub system_selftest_handler : Request → Node → Result
unfolding touch respond
system_selftest_handler req n = respond 200 (("status", str "ok") ∷ []) (touch n)

unfoldable pub imu_calibrate_handler : Request → Node → Result
unfolding touch respond
imu_calibrate_handler req n = respond 200 (("status", str "ok") ∷ []) (touch n)

unfoldable pub mode_text : PowerMode → String
mode_text power_mode_performance = "performance"
mode_text power_mode_normal = "normal"
mode_text power_mode_low_energy = "low_energy"

-- `system_power_mgmt_handler`
unfoldable pub system_power_mgmt_handler : Request → Node → Result
unfolding touch respond mode_text
system_power_mgmt_handler req n =
    respond 200 (("mode", str (mode_text n.power.mode)) ∷ ("no_sleep", flag n.power.no_sleep) ∷ [])
      (touch n)

-- `nvs_variable_list_handler`
unfoldable pub nvs_variable_list_handler : Request → Node → Result
unfolding touch respond
nvs_variable_list_handler req n = respond 200 (("names", names var_names) ∷ []) (touch n)
