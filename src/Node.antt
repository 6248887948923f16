-- ===== src/Node.antt =====
-- The state that the request handlers, the tasks and the event handlers share: `g_mcu`, `g_imu` and what else they
-- change, with a record of the calls that leave the repository, the latest first.
pub mod Example
use Prim.Native.String.{String}
use rfmarkit_esp_node.Base.{ℕ, Bool, Option, List, [], ◌∷◌, ◌++◌, if◌then◌else◌}
use rfmarkit_esp_node.Base.Int.{ℤ}
use rfmarkit_esp_node.Esp.{EspErr, ok}
use rfmarkit_esp_node.RingBuf.{RingBuf}
use rfmarkit_esp_node.Blink.{Blink}
use rfmarkit_esp_node.Nvs.{Stored, VarType, var_type, stored_value}
use rfmarkit_esp_node.Power.{Power}

-- The events of `g_mcu.sys_event_group` (sys.h).
pub data SysEvent : Type 0 where
  wifi_config_updated wifi_connected wifi_disconnected wifi_fail ntp_synced discovery_completed :
      SysEvent
  led_status_changed ota_triggered mode_change power_mgmt : SysEvent

-- `imu_mux_t` and `imu_status_t` (imu.h)
pub data ImuMux : Type 0 where
  imu_mux_idle imu_mux_stream imu_mux_debug : ImuMux

pub data ImuStatus : Type 0 where
  imu_status_unknown imu_status_fail imu_status_ready : ImuStatus

-- The events of the system loop `SYSTEM_EVENTS`.
pub data LoopEvent : Type 0 where
  time_sync_event discovery_event led_status_event wifi_reconnect_event mode_change_event :
      LoopEvent
  power_mgmt_event ota_event : LoopEvent

-- Calls that leave the repository.
pub data Call : Type 0 where
  imu_toggle : Bool → Call
  imu_buffer_reset : Call
  imu_write_bytes : List ℕ → Call
  start_reboot_timer start_shutdown_timer : Call
  start_ws_task : Call
  nvs_set : (index : ℕ) → Stored → Call
  sntp_setservername : List ℕ → Call
  sntp_init sntp_stop : Call
  wifi_disconnect wifi_stop wifi_set_config wifi_start : Call
  restart mark_app_valid : Call

pub record Node : Type 0 where
  pub device_id : List ℕ
  pub active : Bool
  pub led_manual : Bool
  pub ota_err : EspErr
  pub ota_url : List ℕ
  pub seq : ℤ
  pub target_fps : ℤ
  pub imu_baud : ℤ
  pub imu_mux : ImuMux
  pub imu_status : ImuStatus
  pub imu_enabled : Bool
  pub imu_ring_buf : RingBuf
  pub blink : Blink
  pub power : Power
  pub wifi_ssid : List ℕ
  pub wifi_psk : List ℕ
  pub ip : ℕ × ℕ × ℕ × ℕ
  pub wifi_connected : Bool
  pub ntp_synced : Bool
  pub discovery_completed : Bool
  pub missed_frames : ℕ
  pub data_host_ip_addr : List ℕ
  pub ntp_host_ip_addr : List ℕ
  pub sntp_retry_num : ℕ
  pub task_time_sync : Bool  -- the bits of `g_mcu.task_event_group`
  pub task_discovery : Bool
  pub task_led_status : Bool
  pub task_wifi_reconnect : Bool
  pub posted : List LoopEvent  -- the queue of `g_mcu.system_loop`, the oldest first
  pub sys_events : List SysEvent
  pub calls : List Call

unfoldable pub call : Call → Node → Node
call c n = record n { calls = c ∷ n.calls }

-- `set_sys_event`
unfoldable pub set_sys_event : SysEvent → Node → Node
set_sys_event e n = record n { sys_events = e ∷ n.sys_events }

-- `esp_event_post_to`, for the system loop
unfoldable pub post : LoopEvent → Node → Node
post e n = record n { posted = n.posted ++ (e ∷ []) }

-- `sys_set_operation_mode` and `sys_get_operation_mode` of components/sys/sys.c
unfoldable pub sys_set_operation_mode : Bool → Node → Node
unfolding set_sys_event
sys_set_operation_mode active n = set_sys_event mode_change (record n { active = active })

unfoldable pub sys_get_operation_mode : Node → Bool
sys_get_operation_mode n = n.active

-- `sys_mode_change_handler` of components/sys/sys.c
unfoldable pub sys_mode_change_handler : Node → Node
sys_mode_change_handler n = record n { imu_mux = if n.active then imu_mux_stream else imu_mux_idle }

-- `sys_set_nvs_var` of components/sys/nvs_mgmt.c, on an entry of `g_mcu_vars`
unfoldable pub sys_set_nvs_var : ℕ → List ℕ → Node → EspErr × Node
unfolding var_type stored_value call
sys_set_nvs_var index value n = (ok, call (nvs_set index (stored_value (var_type index) value)) n)
