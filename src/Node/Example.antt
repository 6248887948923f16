-- ===== src/Node/Example.antt =====
-- A node for concrete runs.
use rfmarkit_esp_node.Base.{true, false, [], ◌∷◌}
use rfmarkit_esp_node.Base.Int.{pos}
use rfmarkit_esp_node.Esp.{ok}
use rfmarkit_esp_node.RingBuf.{RingBuf}
use rfmarkit_esp_node.Blink.{Blink, led_off, no_pattern}
use rfmarkit_esp_node.Power.{Power, PeripheralState, power_standby, power_mode_normal}
use rfmarkit_esp_node.Node.{Node, imu_mux_stream, imu_status_ready, wifi_disconnected}

abbrev pub a_ring_buf : RingBuf
a_ring_buf = record {
  size = 4;
  item_width = 1;
  buf = 0 ∷ 0 ∷ 0 ∷ 0 ∷ [];
  static_buf = true;
  _head = 1;
  head = 1;
  mutex = false;
}

abbrev pub dark : Blink
dark = record {
  led_status = led_off;
  selected_pattern = no_pattern;
  blink_idx = 0;
  s_seq_enc_pattern = [];
  en_val = true;
  calls = [];
}

abbrev pub all_on : PeripheralState
all_on = record {
  wifi_initialized = true;
  ble_enabled = true;
  imu_initialized = true;
  led_initialized = true;
  button_initialized = true;
  controller_initialized = true;
}

abbrev pub standby : Power
standby = record {
  initialized = true;
  state = power_standby;
  mode = power_mode_normal;
  next_mode = power_mode_normal;
  boot_count = 0;
  mutex = true;
  no_sleep = false;
  peripheral_state = all_on;
  power_save_timer = true;
  calls = [];
}

abbrev pub a_node : Node
a_node = record {
  device_id = b'e' ∷ b'2' ∷ [];
  active = true;
  led_manual = false;
  ota_err = ok;
  ota_url = [];
  seq = pos 7;
  target_fps = pos 100;
  imu_baud = pos 115200;
  imu_mux = imu_mux_stream;
  imu_status = imu_status_ready;
  imu_enabled = true;
  imu_ring_buf = a_ring_buf;
  blink = dark;
  power = standby;
  wifi_ssid = [];
  wifi_psk = [];
  ip = (192, 168, 0, 7);
  wifi_connected = false;
  ntp_synced = true;
  discovery_completed = false;
  missed_frames = 0;
  data_host_ip_addr = b'1' ∷ [];
  ntp_host_ip_addr = b'2' ∷ [];
  sntp_retry_num = 0;
  task_time_sync = false;
  task_discovery = true;
  task_led_status = false;
  task_wifi_reconnect = false;
  posted = [];
  sys_events = wifi_disconnected ∷ [];
  calls = [];
}
