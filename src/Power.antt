-- ===== src/Power.antt =====
-- components/sys/power_mgmt.c: the power states of the node, its modes and the power save timer. The calls to
-- the drivers, the radio and the timer service are outside the model; they are recorded, the latest first.
mod Tests
pub mod Events
pub mod Timer
pub mod Ready
pub mod Reach
pub mod Boot
pub mod Nights
pub mod Saving
use rfmarkit_esp_node.Base.{
  ℕ, ◌+◌, ◌*◌, ◌%◌, ◌^◌, Bool, true, false, not, ◌&&◌, List, [], ◌∷◌, ◌==◌, if◌then◌else◌,
}
use rfmarkit_esp_node.Esp.{EspErr, ok, fail}

-- `power_mgmt_state_t`
pub data PowerState : Type 0 where
  power_unknown power_normal_boot power_standby power_active power_save power_deep_sleep
        power_waken :
      PowerState

-- `power_mode_t`
pub data PowerMode : Type 0 where
  power_mode_performance power_mode_normal power_mode_low_energy : PowerMode

-- `power_peripheral_state_t`
pub record PeripheralState : Type 0 where
  pub wifi_initialized : Bool
  pub ble_enabled : Bool
  pub imu_initialized : Bool
  pub led_initialized : Bool
  pub button_initialized : Bool
  pub controller_initialized : Bool

pub data Call : Type 0 where
  gpio_hold_dis gpio_hold_en : ℕ → Call
  gpio_deep_sleep_hold_dis gpio_deep_sleep_hold_en : Call
  create_mutex : Call
  timer_create timer_start timer_reset timer_stop timer_delete : Call
  sys_init_buttons blink_msp_init imu_interface_init : Call
  imu_toggle : Bool → Call
  wifi_ps_max_modem wifi_ps_none : Call
  blehr_start_srv blehr_stop_srv : Call
  sys_wifi_msp_init sys_wifi_msp_deinit : Call
  wifi_max_tx_power : ℕ → Call
  rest_controller_start rest_controller_stop : Call
  battery_msp_init blink_led_on blink_led_off : Call
  enable_timer_wakeup : ℕ → Call
  enable_button_wakeup deep_sleep_start light_sleep_start : Call
  imu_read imu_buffer_reset imu_self_test ring_buf_init : Call
  sys_start_tasks sys_stop_tasks sys_stop_timers restart : Call

-- `power_mgmt_ctx_t`, with `power_save_timer` (whether it is not NULL).
pub record Power : Type 0 where
  pub initialized : Bool
  pub state : PowerState
  pub mode : PowerMode
  pub next_mode : PowerMode
  pub boot_count : ℕ
  pub mutex : Bool
  pub no_sleep : Bool
  pub peripheral_state : PeripheralState
  pub power_save_timer : Bool
  pub calls : List Call

-- What the handlers find outside their own state.
pub record Env : Type 0 where
  pub timer_starts : Bool
  pub active : Bool
  pub imu_enabled : Bool

-- The build's choices: the pins, and whether a pin keeps its own hold.
pub record Board : Type 0 where
  pub imu_en_pin : Bool
  pub hold_single_io : Bool
  pub imu_pin : ℕ
  pub blink_pin : ℕ
  pub normal_tx_power : ℕ
  pub max_tx_power : ℕ
  pub wake_up_s : ℕ

unfoldable pub call : Call → Power → Power
call c p = record p { calls = c ∷ p.calls }

unfoldable pub state_number : PowerState → ℕ
state_number power_unknown = 6
state_number power_normal_boot = 0
state_number power_standby = 1
state_number power_active = 2
state_number power_save = 3
state_number power_deep_sleep = 4
state_number power_waken = 5

unfoldable pub mode_number : PowerMode → ℕ
mode_number power_mode_performance = 0
mode_number power_mode_normal = 1
mode_number power_mode_low_energy = 2

unfoldable pub is_performance : PowerMode → Bool
is_performance power_mode_performance = true
is_performance _ = false

unfoldable pub is_low_energy : PowerMode → Bool
is_low_energy power_mode_low_energy = true
is_low_energy _ = false

-- `arm_power_save_timer`
unfoldable pub arm_power_save_timer : Env → Power → EspErr × Power
unfolding call
arm_power_save_timer env p = if p.power_save_timer then (fail, call timer_reset p) else (
  if env.timer_starts then ok else fail,
  call timer_start (call timer_create (record p { power_save_timer = true })),
)

-- `disarm_power_save_timer`
unfoldable pub disarm_power_save_timer : Power → Power
unfolding call
disarm_power_save_timer p =
    if p.power_save_timer
    then record (call timer_delete (call timer_stop p)) { power_save_timer = false }
    else p

-- `reset_power_save_timer`
unfoldable pub reset_power_save_timer : Power → Power
unfolding call
reset_power_save_timer p = if p.power_save_timer then call timer_reset p else p

unfoldable pub no_peripheral : PeripheralState
no_peripheral = record {
  wifi_initialized = false;
  ble_enabled = false;
  imu_initialized = false;
  led_initialized = false;
  button_initialized = false;
  controller_initialized = false;
}

-- The release of the pins at boot.
unfoldable pub release_pins : Board → Power → Power
unfolding call
release_pins board p =
    let p₁ = if board.imu_en_pin then call (gpio_hold_dis board.imu_pin) p else p in
    let p₂ = call (gpio_hold_dis board.blink_pin) p₁ in
    if board.hold_single_io
    then call (gpio_hold_en board.blink_pin)
        (if board.imu_en_pin then call (gpio_hold_en board.imu_pin) p₂ else p₂)
    else call gpio_deep_sleep_hold_en (call gpio_deep_sleep_hold_dis p₂)

-- `power_mgmt_init`; `boot_count` counts below the bound of its type
unfoldable pub power_mgmt_init : Board → Power → EspErr × Power
unfolding release_pins no_peripheral state_number call
power_mgmt_init board p =
    let q = record (release_pins board p) {
      boot_count = p.boot_count + 1;
      peripheral_state = no_peripheral;
    } in
    if p.initialized
    then (if state_number p.state == state_number power_deep_sleep
        then (
          ok,
          call create_mutex (record q { state = power_waken; next_mode = p.mode; mutex = true }),
        )
        else (fail, record q { state = power_unknown; mutex = false }))
    else (
      ok,
      call create_mutex (record q {
        initialized = true;
        state = power_normal_boot;
        mode = power_mode_normal;
        next_mode = power_mode_normal;
        mutex = true;
      }),
    )
