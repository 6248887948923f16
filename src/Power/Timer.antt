-- ===== src/Power/Timer.antt =====
-- The power save timer of components/sys/power_mgmt.c over the calls that are made on it.
use rfmarkit_esp_node.Base.{
  ℕ, Bool, true, false, not, ◌&&◌, arith, ◌≡◌, sym, ap, ◌∙◌, List, [], ◌∷◌, if◌then◌else◌,
  Bool-cases, inl, inr,
}
use mathlib.Core.Path.{transport}
use rfmarkit_esp_node.Power.{
  Call, Power, Env, Board, PowerState, PowerMode, power_standby, is_performance, release_pins,
  power_mgmt_init, wifi_max_tx_power, battery_msp_init, call, arm_power_save_timer,
  disarm_power_save_timer, reset_power_save_timer, timer_create, timer_start, timer_reset,
  timer_stop, timer_delete,
}
use rfmarkit_esp_node.Power.Events.{
  flags, start_ble, stop_ble, setup_button, setup_led, setup_imu, setup_ble, setup_wifi,
  setup_controller, setup_timer, drop_ble, power_mgmt_on_enter_active, power_mgmt_on_enter_standby,
}

-- Whether the timer exists after these calls, the latest first.
unfoldable pub timer_exists : List Call → Bool
timer_exists [] = false
timer_exists (timer_create ∷ cs) = true
timer_exists (timer_delete ∷ cs) = false
timer_exists (c ∷ cs) = timer_exists cs

-- No timer is created while one exists; one is started, reset, stopped and deleted only while it exists.
unfoldable pub is_sound : List Call → Bool
unfolding timer_exists
is_sound [] = true
is_sound (timer_create ∷ cs) = not (timer_exists cs) && is_sound cs
is_sound (timer_start ∷ cs) = timer_exists cs && is_sound cs
is_sound (timer_reset ∷ cs) = timer_exists cs && is_sound cs
is_sound (timer_stop ∷ cs) = timer_exists cs && is_sound cs
is_sound (timer_delete ∷ cs) = timer_exists cs && is_sound cs
is_sound (c ∷ cs) = is_sound cs

-- The pointer says whether the timer exists, and the calls so far were sound.
pub record Sound (p : Power) : Type 0 where
  pub exists : timer_exists p.calls ≡ p.power_save_timer
  pub sound : is_sound p.calls ≡ true

module _ (p : Power) (h : Sound p) where
  pub setup_button-Sound : Sound (setup_button p)
  unfolding setup_button flags call timer_exists is_sound
  setup_button-Sound = record {
    exists = ground (arith, h.exists);
    sound = ground (arith, h.exists, h.sound);
  }

  pub setup_led-Sound : Sound (setup_led p)
  unfolding setup_led flags call timer_exists is_sound
  setup_led-Sound = record {
    exists = ground (arith, h.exists);
    sound = ground (arith, h.exists, h.sound);
  }

  pub setup_imu-Sound : (env : Env) → Sound (setup_imu env p)
  unfolding setup_imu flags call timer_exists is_sound
  setup_imu-Sound env = record {
    exists = ground (arith, h.exists);
    sound = ground (arith, h.exists, h.sound);
  }

  pub setup_ble-Sound : Sound (setup_ble p)
  unfolding setup_ble start_ble stop_ble flags call timer_exists is_sound
  setup_ble-Sound = record {
    exists = ground (arith, h.exists);
    sound = ground (arith, h.exists, h.sound);
  }

  pub setup_wifi-Sound : Sound (setup_wifi p)
  unfolding setup_wifi flags call timer_exists is_sound
  setup_wifi-Sound = record {
    exists = ground (arith, h.exists);
    sound = ground (arith, h.exists, h.sound);
  }

  pub setup_controller-Sound : Sound (setup_controller p)
  unfolding setup_controller flags call timer_exists is_sound
  setup_controller-Sound = record {
    exists = ground (arith, h.exists);
    sound = ground (arith, h.exists, h.sound);
  }

  pub drop_ble-Sound : Sound (drop_ble p)
  unfolding drop_ble stop_ble flags call timer_exists is_sound
  drop_ble-Sound = record {
    exists = ground (arith, h.exists);
    sound = ground (arith, h.exists, h.sound);
  }

  pub reset_power_save_timer-Sound : Sound (reset_power_save_timer p)
  unfolding reset_power_save_timer call timer_exists is_sound
  reset_power_save_timer-Sound = record {
    exists = ground (arith, h.exists);
    sound = ground (arith, h.exists, h.sound);
  }

  -- Arming leaves the timer in existence.
  pub arm_power_save_timer-Sound :
      (env : Env)
      → Sound (arm_power_save_timer env p).1
        × ((arm_power_save_timer env p).1.power_save_timer ≡ true)
  unfolding arm_power_save_timer call timer_exists is_sound
  arm_power_save_timer-Sound env = (
    record { exists = ground (arith, h.exists); sound = ground (arith, h.exists, h.sound) },
    ground arith,
  )

  -- Disarming leaves none.
  pub disarm_power_save_timer-Sound :
      Sound (disarm_power_save_timer p) × ((disarm_power_save_timer p).power_save_timer ≡ false)
  unfolding disarm_power_save_timer call timer_exists is_sound
  disarm_power_save_timer-Sound = (
    record { exists = ground (arith, h.exists); sound = ground (arith, h.exists, h.sound) },
    ground arith,
  )

  tx_power-Sound : (n : ℕ) → Sound (call (wifi_max_tx_power n) p)
  unfolding call timer_exists is_sound
  tx_power-Sound n = record { exists = h.exists; sound = h.sound }

  settle-Sound : (state : PowerState) → Sound (record (call battery_msp_init p) { state = state })
  unfolding call timer_exists is_sound
  settle-Sound state = record { exists = h.exists; sound = h.sound }

  pub mode-Sound : (mode : PowerMode) → Sound (record p { mode = mode })
  mode-Sound mode = record { exists = h.exists; sound = h.sound }

  pub no_sleep-Sound : (b : Bool) → Sound (record p { no_sleep = b })
  no_sleep-Sound b = record { exists = h.exists; sound = h.sound }

  pub power_mgmt_on_enter_active-Sound :
      (board : Board) → Sound (power_mgmt_on_enter_active board p).1
  unfolding power_mgmt_on_enter_active stop_ble flags call timer_exists is_sound
  power_mgmt_on_enter_active-Sound board = record {
    exists = ground (arith, h.exists);
    sound = ground (arith, h.exists, h.sound);
  }

  release_pins-Sound : (board : Board) → Sound (release_pins board p)
  unfolding release_pins call timer_exists is_sound
  release_pins-Sound board = record {
    exists = ground (arith, h.exists);
    sound = ground (arith, h.exists, h.sound);
  }

  pub power_mgmt_init-Sound : (board : Board) → Sound (power_mgmt_init board p).1
  unfolding power_mgmt_init call timer_exists is_sound
  power_mgmt_init-Sound board =
      let s = release_pins-Sound board in
      record { exists = ground (arith, s.exists); sound = ground (arith, s.exists, s.sound) }

  -- The timer follows the mode when the node enters standby.
  pub setup_timer-Sound :
      (env : Env)
      → Sound (setup_timer env p)
        × ((setup_timer env p).power_save_timer ≡ not (is_performance p.mode))
  unfolding setup_timer
  setup_timer-Sound env = elim (Bool-cases (is_performance p.mode)) [
    | inl e ↦ transport (λ i. Chosen (sym e i) (not (sym e i))) disarm_power_save_timer-Sound
    | inr e ↦ transport (λ i. Chosen (sym e i) (not (sym e i))) (arm_power_save_timer-Sound env)
  ]
    where
      Chosen : Bool → Bool → Type 0
      Chosen t u =
          Sound (if t then disarm_power_save_timer p else (arm_power_save_timer env p).1)
          × ((if t
                then disarm_power_save_timer p
                else (arm_power_save_timer env p).1).power_save_timer
              ≡ u)

module _ (board : Board) (env : Env) (p : Power) (h : Sound p) where
  started : Power
  started = setup_wifi (setup_ble (setup_imu env (setup_led (setup_button p))))

  served : Power
  served = setup_controller (call (wifi_max_tx_power board.normal_tx_power) started)

  served-Sound : Sound served
  unfolding started setup_wifi served setup_controller
  served-Sound = setup_controller-Sound (call (wifi_max_tx_power board.normal_tx_power) started) (
      tx_power-Sound started
        (setup_wifi-Sound _
          (setup_ble-Sound _ (setup_imu-Sound _ (setup_led-Sound _ (setup_button-Sound p h)) env)))
        board.normal_tx_power)

  served-mode : served.mode ≡ p.mode
  unfolding started served setup_button setup_led setup_imu setup_ble start_ble stop_ble setup_wifi
      setup_controller flags call
  served-mode = ground arith

  pub power_mgmt_on_enter_standby-Sound :
      Sound (power_mgmt_on_enter_standby board env p).1
      × ((power_mgmt_on_enter_standby board env p).1.power_save_timer ≡ not (is_performance p.mode))
  unfolding power_mgmt_on_enter_standby served started
  power_mgmt_on_enter_standby-Sound =
      let (s, timer) = setup_timer-Sound served served-Sound env in
      (
        settle-Sound (setup_timer env served) s power_standby,
        timer ∙ ap (λ m. not (is_performance m)) served-mode,
      )

  setup_timer-mode : (q : Power) → (setup_timer env q).mode ≡ q.mode
  unfolding setup_timer arm_power_save_timer disarm_power_save_timer call
  setup_timer-mode q = ground arith

  pub power_mgmt_on_enter_standby-mode : (power_mgmt_on_enter_standby board env p).1.mode ≡ p.mode
  unfolding power_mgmt_on_enter_standby served started
  power_mgmt_on_enter_standby-mode = setup_timer-mode served ∙ served-mode
