-- ===== src/Power/Ready.antt =====
-- What standby establishes.
use rfmarkit_esp_node.Base.{Bool, true, false, not, ◌&&◌, ◌≡◌, refl, ap, ◌∙◌, if◌then◌else◌, arith}
use rfmarkit_esp_node.Esp.{EspErr, ok, fail}
use rfmarkit_esp_node.Power.{
  timer_create, timer_start, timer_reset, timer_stop, timer_delete, is_performance,
  arm_power_save_timer, disarm_power_save_timer, sys_init_buttons, blink_msp_init,
  imu_interface_init, imu_toggle, wifi_ps_max_modem, sys_wifi_msp_init, rest_controller_start,
  wifi_max_tx_power, Power, Env, Board, PeripheralState, call, is_low_energy,
}
use rfmarkit_esp_node.Power.Events.{
  flags, start_ble, stop_ble, setup_button, setup_led, setup_imu, setup_ble, setup_wifi,
  setup_controller, setup_timer, power_mgmt_on_enter_standby,
}

by_flag :
    (t : Bool) (p q : Power) (f : Bool → PeripheralState)
    → p.peripheral_state ≡ f t
    → q.peripheral_state ≡ f true
    → (if t then p else q).peripheral_state ≡ f true
by_flag true p q f h h' = h
by_flag false p q f h h' = h'

same_if :
    (t : Bool) (p q : Power)
    → q.peripheral_state ≡ p.peripheral_state
    → (if t then p else q).peripheral_state ≡ p.peripheral_state
same_if true p q h = refl
same_if false p q h = h

by_mode :
    (b low : Bool) (p q q' : Power) (f : Bool → PeripheralState)
    → p.peripheral_state ≡ f b
    → q.peripheral_state ≡ f true
    → q'.peripheral_state ≡ f false
    → (if not b && not low then q else if low then q' else p).peripheral_state ≡ f (not low)
by_mode true true p q q' f h h' h'' = h''
by_mode true false p q q' f h h' h'' = h
by_mode false true p q q' f h h' h'' = h''
by_mode false false p q q' f h h' h'' = h'

any_branch :
    (t u : Bool) (e e' : EspErr) (p a b c : Power)
    → a.peripheral_state ≡ p.peripheral_state
    → b.peripheral_state ≡ p.peripheral_state
    → c.peripheral_state ≡ p.peripheral_state
    → (if t
        then (if u then a else p)
        else (if◌then◌else◌ {A = EspErr × Power} u (e, b) (e', c)).1).peripheral_state
      ≡ p.peripheral_state
any_branch true true e e' p a b c h h' h'' = h
any_branch true false e e' p a b c h h' h'' = refl
any_branch false true e e' p a b c h h' h'' = h'
any_branch false false e e' p a b c h h' h'' = h''

module _ (p : Power) where
  setup_button-flags :
      (setup_button p).peripheral_state ≡ record p.peripheral_state { button_initialized = true }
  unfolding setup_button flags call
  setup_button-flags =
      by_flag p.peripheral_state.button_initialized p
        (flags (λ f. record f { button_initialized = true }) (call sys_init_buttons p))
        (λ b. record p.peripheral_state { button_initialized = b }) refl refl

  setup_led-flags :
      (setup_led p).peripheral_state ≡ record p.peripheral_state { led_initialized = true }
  unfolding setup_led flags call
  setup_led-flags =
      by_flag p.peripheral_state.led_initialized p
        (flags (λ f. record f { led_initialized = true }) (call blink_msp_init p))
        (λ b. record p.peripheral_state { led_initialized = b }) refl refl

  setup_imu-flags :
      (env : Env)
      → (setup_imu env p).peripheral_state ≡ record p.peripheral_state { imu_initialized = true }
  unfolding setup_imu flags call
  setup_imu-flags env =
      by_flag p.peripheral_state.imu_initialized
        (if env.imu_enabled then p else call (imu_toggle true) p)
        (flags (λ f. record f { imu_initialized = true }) (call imu_interface_init p))
        (λ b. record p.peripheral_state { imu_initialized = b })
        (same_if env.imu_enabled p (call (imu_toggle true) p) refl) refl

  setup_ble-flags :
      (setup_ble p).peripheral_state
      ≡ record p.peripheral_state { ble_enabled = not (is_low_energy p.mode) }
  unfolding setup_ble start_ble stop_ble flags call
  setup_ble-flags =
      by_mode p.peripheral_state.ble_enabled (is_low_energy p.mode) p
        (start_ble (call wifi_ps_max_modem p)) (stop_ble p)
        (λ b. record p.peripheral_state { ble_enabled = b }) refl refl refl

  setup_wifi-flags :
      (setup_wifi p).peripheral_state ≡ record p.peripheral_state { wifi_initialized = true }
  unfolding setup_wifi flags call
  setup_wifi-flags =
      by_flag p.peripheral_state.wifi_initialized p
        (flags (λ f. record f { wifi_initialized = true }) (call sys_wifi_msp_init p))
        (λ b. record p.peripheral_state { wifi_initialized = b }) refl refl

  setup_controller-flags :
      (setup_controller p).peripheral_state
      ≡ record p.peripheral_state { controller_initialized = true }
  unfolding setup_controller flags call
  setup_controller-flags =
      by_flag p.peripheral_state.controller_initialized p
        (flags (λ f. record f { controller_initialized = true }) (call rest_controller_start p))
        (λ b. record p.peripheral_state { controller_initialized = b }) refl refl

  setup_timer-flags : (env : Env) → (setup_timer env p).peripheral_state ≡ p.peripheral_state
  unfolding setup_timer arm_power_save_timer disarm_power_save_timer call
  setup_timer-flags env =
      any_branch (is_performance p.mode) p.power_save_timer fail
        (if env.timer_starts then ok else fail) p
        (record (call timer_delete (call timer_stop p)) { power_save_timer = false })
        (call timer_reset p)
        (call timer_start (call timer_create (record p { power_save_timer = true }))) refl refl refl

module _ (env : Env) (p : Power) where
  sensing : Power
  sensing = setup_imu env (setup_led (setup_button p))

  sensing-mode : sensing.mode ≡ p.mode
  unfolding sensing setup_button setup_led setup_imu flags call
  sensing-mode = ground arith

  sensing-flags : sensing.peripheral_state ≡ record p.peripheral_state {
    button_initialized = true;
    led_initialized = true;
    imu_initialized = true;
  }
  unfolding sensing
  sensing-flags =
      setup_imu-flags (setup_led (setup_button p)) env
      ∙ ap (λ (f : PeripheralState). record f { imu_initialized = true })
          (setup_led-flags (setup_button p)
            ∙ ap (λ (f : PeripheralState). record f { led_initialized = true })
                (setup_button-flags p))

-- The flags of a node that is ready.
unfoldable pub all_ready : Bool → PeripheralState
all_ready ble = record {
  wifi_initialized = true;
  ble_enabled = ble;
  imu_initialized = true;
  led_initialized = true;
  button_initialized = true;
  controller_initialized = true;
}

-- From any state, standby leaves every peripheral initialised, and Bluetooth on exactly outside the low
-- energy mode.
pub power_mgmt_on_enter_standby-ready :
    (board : Board) (env : Env) (p : Power)
    → (power_mgmt_on_enter_standby board env p).1.peripheral_state
      ≡ all_ready (not (is_low_energy p.mode))
unfolding power_mgmt_on_enter_standby all_ready call sensing
power_mgmt_on_enter_standby-ready board env p =
    let s = sensing env p in
    setup_timer-flags
      (setup_controller (call (wifi_max_tx_power board.normal_tx_power) (setup_wifi (setup_ble s))))
      env
    ∙ setup_controller-flags
        (call (wifi_max_tx_power board.normal_tx_power) (setup_wifi (setup_ble s)))
    ∙ ap (λ (f : PeripheralState). record f { controller_initialized = true })
        (setup_wifi-flags (setup_ble s)
          ∙ ap (λ (f : PeripheralState). record f { wifi_initialized = true })
              (setup_ble-flags s ∙ λ i. record (sensing-flags env p i) {
                ble_enabled = not (is_low_energy (sensing-mode env p i));
              }))
