-- ===== src/Rest/Routes.antt =====
-- The table of components/rest_controller/rest_controller.c: the addresses, the methods and the handlers.
use Prim.Native.String.{String}
use rfmarkit_esp_node.Base.{ℕ, Bool, Option, List, [], ◌∷◌}
use rfmarkit_esp_node.Node.{Node}
use rfmarkit_esp_node.Rest.Request.{Method, http_get, http_post, Request, Result}
use rfmarkit_esp_node.Rest.System.{
  Chip, system_info_handler, system_power_handler, system_upgrade_handler, system_selftest_handler,
  system_power_mgmt_handler, imu_calibrate_handler,
}
use rfmarkit_esp_node.Rest.Variables.{nvs_variable_handler}
use rfmarkit_esp_node.Rest.Imu.{imu_toggle_handler, imu_status_handler, imu_debug_toggle_handler}
use rfmarkit_esp_node.Rest.Led.{
  blink_configure_handler, blink_toggle_handler, operation_mode_handler,
}

-- The handlers that answer with a response; `imu_debug_socket_handler` serves a socket.
pub data Handler : Type 0 where
  system_info system_power system_upgrade system_selftest system_power_mgmt : Handler
  nvs_variable imu_calibrate imu_toggle imu_status imu_debug_toggle imu_debug_socket : Handler
  blink_configure blink_toggle operation_mode : Handler

-- `httpd_uri_t`
pub record Route : Type 0 where
  pub uri : String
  pub method : Method
  pub handler : Handler

abbrev pub route : String → Method → Handler → Route
route uri method handler = record { uri = uri; method = method; handler = handler }

-- `controller_uri`
abbrev pub controller_uri : List Route
controller_uri =
    route "/v1/system/info" http_get system_info
    ∷ route "/v1/system/power" http_post system_power
    ∷ route "/v1/system/upgrade" http_get system_upgrade
    ∷ route "/v1/system/upgrade" http_post system_upgrade
    ∷ route "/v1/system/selftest" http_post system_selftest
    ∷ route "/v1/system/power_mgmt" http_get system_power_mgmt
    ∷ route "/v1/system/power_mgmt" http_post system_power_mgmt
    ∷ route "/v1/nvs/variable/*" http_get nvs_variable
    ∷ route "/v1/nvs/variable/*" http_post nvs_variable
    ∷ route "/v1/imu/calibrate" http_post imu_calibrate
    ∷ route "/v1/imu/toggle" http_post imu_toggle
    ∷ route "/v1/imu/status" http_get imu_status
    ∷ route "/v1/imu/debug/toggle" http_post imu_debug_toggle
    ∷ route "/v1/imu/debug/socket" http_get imu_debug_socket
    ∷ route "/v1/blink/configure" http_get blink_configure
    ∷ route "/v1/blink/configure" http_post blink_configure
    ∷ route "/v1/blink/toggle" http_get blink_toggle
    ∷ route "/v1/blink/toggle" http_post blink_toggle
    ∷ route "/v1/operation/mode" http_get operation_mode
    ∷ route "/v1/operation/mode" http_post operation_mode
    ∷ []

-- What the handlers ask of the rest of the node: the chip, the driver of the sensor (whether it is powered, and what
-- it reads) and the values in flash.
pub record World : Type 0 where
  pub chip : Chip
  pub powered : Bool
  pub reading : Option (List ℕ)
  pub stored : ℕ → List ℕ

-- The response of a handler; `socket` stands for what the server answers for a socket.
unfoldable pub run : World → Result → Handler → Request → Node → Result
unfolding system_info_handler system_power_handler system_upgrade_handler system_selftest_handler
    system_power_mgmt_handler nvs_variable_handler imu_calibrate_handler imu_toggle_handler
    imu_status_handler imu_debug_toggle_handler blink_configure_handler blink_toggle_handler
    operation_mode_handler
run w socket system_info req n = system_info_handler w.chip req n
run w socket system_power req n = system_power_handler req n
run w socket system_upgrade req n = system_upgrade_handler req n
run w socket system_selftest req n = system_selftest_handler req n
run w socket system_power_mgmt req n = system_power_mgmt_handler req n
run w socket nvs_variable req n = nvs_variable_handler w.stored req n
run w socket imu_calibrate req n = imu_calibrate_handler req n
run w socket imu_toggle req n = imu_toggle_handler req n
run w socket imu_status req n = imu_status_handler w.powered w.reading req n
run w socket imu_debug_toggle req n = imu_debug_toggle_handler req n
run w socket imu_debug_socket req n = socket
run w socket blink_configure req n = blink_configure_handler req n
run w socket blink_toggle req n = blink_toggle_handler req n
run w socket operation_mode req n = operation_mode_handler req n
