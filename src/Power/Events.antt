-- ===== src/Power/Events.antt =====
-- The entries into the power states and `sys_power_mgmt_handler` of components/sys/power_mgmt.c.
use rfmarkit_esp_node.Base.{◌*◌, Bool, true, false, not, ◌&&◌, ◌==◌, if◌then◌else◌}
use rfmarkit_esp_node.Esp.{EspErr, ok}
use rfmarkit_esp_node.Power.{
  PowerState, power_standby, power_active, power_save, power_deep_sleep, PowerMode,
  power_mode_performance, power_mode_normal, power_mode_low_energy, Power, PeripheralState, Env,
  Board, call, mode_number, is_performance, is_low_energy, arm_power_save_timer,
  disarm_power_save_timer, reset_power_save_timer, sys_init_buttons, blink_msp_init,
  imu_interface_init, imu_toggle, wifi_ps_max_modem, wifi_ps_none, blehr_start_srv, blehr_stop_srv,
  sys_wifi_msp_init, sys_wifi_msp_deinit, wifi_max_tx_power, rest_controller_start,
  rest_controller_stop, battery_msp_init, blink_led_on, blink_led_off, gpio_hold_en,
  enable_timer_wakeup, enable_button_wakeup, deep_sleep_start,
}

-- A change of the peripheral flags.
unfoldable pub flags : (PeripheralState → PeripheralState) → Power → Power
flags f p = record p { peripheral_state = f p.peripheral_state }

-- `blehr_start_srv` and `blehr_stop_srv` set the flag they are given.
unfoldable pub start_ble : Power → Power
unfolding call flags
start_ble p = flags (λ f. record f { ble_enabled = true }) (call blehr_start_srv p)

unfoldable pub stop_ble : Power → Power
unfolding call flags
stop_ble p = flags (λ f. record f { ble_enabled = false }) (call blehr_stop_srv p)

unfoldable pub setup_button : Power → Power
unfolding call flags
setup_button p =
    if p.peripheral_state.button_initialized
    then p
    else flags (λ f. record f { button_initialized = true }) (call sys_init_buttons p)

unfoldable pub setup_led : Power → Power
unfolding call flags
setup_led p =
    if p.peripheral_state.led_initialized
    then p
    else flags (λ f. record f { led_initialized = true }) (call blink_msp_init p)

unfoldable pub setup_imu : Env → Power → Power
unfolding call flags
setup_imu env p =
    if p.peripheral_state.imu_initialized
    then (if env.imu_enabled then p else call (imu_toggle true) p)
    else flags (λ f. record f { imu_initialized = true }) (call imu_interface_init p)

unfoldable pub setup_ble : Power → Power
unfolding call start_ble stop_ble is_low_energy
setup_ble p =
    if not p.peripheral_state.ble_enabled && not (is_low_energy p.mode)
    then start_ble (call wifi_ps_max_modem p)
    else if is_low_energy p.mode
    then stop_ble p
    else p

unfoldable pub setup_wifi : Power → Power
unfolding call flags
setup_wifi p =
    if p.peripheral_state.wifi_initialized
    then p
    else flags (λ f. record f { wifi_initialized = true }) (call sys_wifi_msp_init p)

unfoldable pub setup_controller : Power → Power
unfolding call flags
setup_controller p =
    if p.peripheral_state.controller_initialized
    then p
    else flags (λ f. record f { controller_initialized = true }) (call rest_controller_start p)

unfoldable pub setup_timer : Env → Power → Power
unfolding arm_power_save_timer disarm_power_save_timer is_performance
setup_timer env p =
    if is_performance p.mode then disarm_power_save_timer p else (arm_power_save_timer env p).1

-- `power_mgmt_on_enter_standby`
unfoldable pub power_mgmt_on_enter_standby : Board → Env → Power → EspErr × Power
unfolding call setup_button setup_led setup_imu setup_ble setup_wifi setup_controller setup_timer
power_mgmt_on_enter_standby board env p =
    let q = setup_wifi (setup_ble (setup_imu env (setup_led (setup_button p)))) in
    let r = setup_timer env (setup_controller (call (wifi_max_tx_power board.normal_tx_power) q)) in
    (ok, record (call battery_msp_init r) { state = power_standby })

-- `power_mgmt_on_enter_active`
unfoldable pub power_mgmt_on_enter_active : Board → Power → EspErr × Power
unfolding call stop_ble
power_mgmt_on_enter_active board p =
    let q = call (wifi_max_tx_power board.max_tx_power) p in
    (
      ok,
      record (if q.peripheral_state.ble_enabled then call wifi_ps_none (stop_ble q) else q) {
        state = power_active;
      },
    )

unfoldable pub drop_wifi : Power → Power
unfolding call flags
drop_wifi p =
    if p.peripheral_state.wifi_initialized
    then flags (λ f. record f { wifi_initialized = false }) (call sys_wifi_msp_deinit p)
    else p

unfoldable pub drop_controller : Power → Power
unfolding call flags
drop_controller p =
    if p.peripheral_state.controller_initialized
    then flags (λ f. record f { controller_initialized = false }) (call rest_controller_stop p)
    else p

unfoldable pub drop_ble : Power → Power
unfolding stop_ble
drop_ble p = if p.peripheral_state.ble_enabled then stop_ble p else p

-- `power_mgmt_on_enter_power_save`
unfoldable pub power_mgmt_on_enter_power_save : Power → EspErr × Power
unfolding call drop_ble drop_wifi drop_controller
power_mgmt_on_enter_power_save p = (
  ok,
  record (drop_controller (call blink_led_off (drop_wifi (drop_ble p)))) { state = power_save },
)

-- `power_mgmt_on_enter_deep_sleep`, up to the sleep, from which the chip boots again
unfoldable pub power_mgmt_on_enter_deep_sleep : Board → Bool → Power → Power
unfolding call
power_mgmt_on_enter_deep_sleep board wakeup p =
    let p₁ = call (imu_toggle false) p in
    let p₂ =
      if p.peripheral_state.led_initialized
      then call blink_led_off (call blink_led_on p₁)
      else p₁ in
    let p₃ = if board.imu_en_pin then call (gpio_hold_en board.imu_pin) p₂ else p₂ in
    let p₄ = call (gpio_hold_en board.blink_pin) p₃ in
    let p₅ = if wakeup then call (enable_timer_wakeup (board.wake_up_s * 1000000)) p₄ else p₄ in
    call deep_sleep_start (record (call enable_button_wakeup p₅) { state = power_deep_sleep })

-- The change to the next mode.
unfoldable pub change_mode : Env → PowerMode → Power → Power
unfolding arm_power_save_timer disarm_power_save_timer drop_ble
change_mode env power_mode_performance p =
    disarm_power_save_timer (record p { mode = power_mode_performance })
change_mode env power_mode_normal p =
    (arm_power_save_timer env (record p { mode = power_mode_normal })).1
change_mode env power_mode_low_energy p =
    (arm_power_save_timer env (drop_ble (record p { mode = power_mode_low_energy }))).1

unfoldable pub update_mode : Env → Power → Power
unfolding change_mode mode_number
update_mode env p =
    if mode_number p.next_mode == mode_number p.mode then p else change_mode env p.next_mode p

-- The part of the regular event that looks at the state.
unfoldable pub keep_awake : PowerState → Power → Power
unfolding reset_power_save_timer
keep_awake power_standby p = if p.no_sleep then reset_power_save_timer p else p
keep_awake power_active p = reset_power_save_timer p
keep_awake _ p = p

-- The events the handler is registered for, and any other.
pub data Event : Type 0 where
  system_power_mgmt_event system_mode_change_event system_ota_event other_event : Event

-- `sys_power_mgmt_handler`, under its mutex
unfoldable pub sys_power_mgmt_handler : Board → Env → Event → Power → Power
unfolding update_mode keep_awake power_mgmt_on_enter_active power_mgmt_on_enter_standby
sys_power_mgmt_handler board env system_power_mgmt_event p =
    let q = update_mode env p in keep_awake q.state q
sys_power_mgmt_handler board env system_mode_change_event p =
    if env.active
    then record (power_mgmt_on_enter_active board p).1 { no_sleep = true }
    else record (power_mgmt_on_enter_standby board env p).1 { no_sleep = false }
sys_power_mgmt_handler board env system_ota_event p = record p { no_sleep = true }
sys_power_mgmt_handler board env other_event p = p
