-- ===== src/Power/Reach.antt =====
-- What holds of the node after any events, once it has been in standby.
use rfmarkit_esp_node.Base.{
  Bool, true, false, not, ◌&&◌, ◌||◌, ◌≡◌, refl, sym, ap, ◌∙◌, [], ◌==◌, if◌then◌else◌, arith,
}
use rfmarkit_esp_node.Power.{
  Power, Env, Board, PowerState, PowerMode, power_mode_performance, power_mode_normal,
  power_mode_low_energy, power_unknown, power_normal_boot, power_standby, power_active, power_save,
  power_deep_sleep, power_waken, state_number, mode_number, call, power_mgmt_init, is_low_energy,
  is_performance, arm_power_save_timer, disarm_power_save_timer, reset_power_save_timer,
}
use rfmarkit_esp_node.Power.Events.{
  Event, system_power_mgmt_event, system_mode_change_event, system_ota_event, other_event, flags,
  stop_ble, drop_ble, change_mode, update_mode, keep_awake, power_mgmt_on_enter_standby,
  power_mgmt_on_enter_active, sys_power_mgmt_handler,
}
use rfmarkit_esp_node.Power.Timer.{
  Sound, timer_exists, is_sound, power_mgmt_init-Sound, mode-Sound, drop_ble-Sound,
  arm_power_save_timer-Sound, disarm_power_save_timer-Sound, reset_power_save_timer-Sound,
  no_sleep-Sound, power_mgmt_on_enter_active-Sound, power_mgmt_on_enter_standby-Sound,
  power_mgmt_on_enter_standby-mode,
}
use rfmarkit_esp_node.Power.Ready.{all_ready, power_mgmt_on_enter_standby-ready}

-- Bluetooth on in the low energy mode or while packets are sent.
unfoldable pub disturbs : Power → Bool
unfolding is_low_energy state_number
disturbs p = p.peripheral_state.ble_enabled && (is_low_energy p.mode || state_number p.state == 2)

pub record Inv (p : Power) : Type 0 where
  pub timer : Sound p
  pub armed : p.power_save_timer ≡ not (is_performance p.mode)
  pub silent : disturbs p ≡ false

disarm-mode : (p : Power) → (disarm_power_save_timer p).mode ≡ p.mode
unfolding disarm_power_save_timer call
disarm-mode p = ground arith

change_mode-Inv : (env : Env) (mode : PowerMode) (p : Power) → Inv p → Inv (change_mode env mode p)
unfolding change_mode disturbs arm_power_save_timer disarm_power_save_timer drop_ble stop_ble flags
    call is_performance
change_mode-Inv env power_mode_performance p h =
    let (s, off) = disarm_power_save_timer-Sound _ (mode-Sound p h.timer power_mode_performance) in
    record {
      timer = s;
      armed =
          off
          ∙ sym (
              ap (λ (m : PowerMode). not (is_performance m)) {y = power_mode_performance}
                (disarm-mode (record p { mode = power_mode_performance })));
      silent = ground (arith, h.silent);
    }
change_mode-Inv env power_mode_normal p h =
    let (s, on) = arm_power_save_timer-Sound _ (mode-Sound p h.timer power_mode_normal) env in
    record { timer = s; armed = ground arith; silent = ground (arith, h.silent) }
change_mode-Inv env power_mode_low_energy p h =
    let (s, on) =
      arm_power_save_timer-Sound _ (drop_ble-Sound _ (mode-Sound p h.timer power_mode_low_energy))
        env in
    record { timer = s; armed = ground arith; silent = ground (arith, h.silent) }

Inv-if : (t : Bool) (p q : Power) → Inv p → Inv q → Inv (if t then p else q)
Inv-if true p q h h' = h
Inv-if false p q h h' = h'

update_mode-Inv : (env : Env) (p : Power) → Inv p → Inv (update_mode env p)
unfolding update_mode
update_mode-Inv env p h =
    Inv-if (mode_number p.next_mode == mode_number p.mode) p (change_mode env p.next_mode p) h
      (change_mode-Inv env p.next_mode p h)

reset-Inv : (p : Power) → Inv p → Inv (reset_power_save_timer p)
unfolding reset_power_save_timer disturbs call
reset-Inv p h = record {
  timer = reset_power_save_timer-Sound p h.timer;
  armed = ground (arith, h.armed);
  silent = ground (arith, h.silent);
}

keep_awake-Inv : (state : PowerState) (p : Power) → Inv p → Inv (keep_awake state p)
unfolding keep_awake
keep_awake-Inv power_standby p h = Inv-if p.no_sleep (reset_power_save_timer p) p (reset-Inv p h) h
keep_awake-Inv power_active p h = reset-Inv p h
keep_awake-Inv power_unknown p h = h
keep_awake-Inv power_normal_boot p h = h
keep_awake-Inv power_save p h = h
keep_awake-Inv power_deep_sleep p h = h
keep_awake-Inv power_waken p h = h

active-Inv : (board : Board) (p : Power) → Inv p → Inv (power_mgmt_on_enter_active board p).1
unfolding power_mgmt_on_enter_active stop_ble flags disturbs call
active-Inv board p h = record {
  timer = power_mgmt_on_enter_active-Sound p h.timer board;
  armed = ground (arith, h.armed);
  silent = ground (arith, h.silent);
}

quiet : (low : Bool) → (not low && (low || false)) ≡ false
quiet true = refl
quiet false = refl

-- Standby establishes the invariant from any state with a sound timer.
pub standby-Inv :
    (board : Board) (env : Env) (p : Power)
    → Sound p
    → Inv (power_mgmt_on_enter_standby board env p).1
unfolding disturbs power_mgmt_on_enter_standby all_ready
standby-Inv board env p h =
    let (s, timer) = power_mgmt_on_enter_standby-Sound board env p h in
    record {
      timer = s;
      armed =
          timer
          ∙ sym (
              ap (λ (m : PowerMode). not (is_performance m))
                (power_mgmt_on_enter_standby-mode board env p h));
      silent =
          (λ i.
            (power_mgmt_on_enter_standby-ready board env p i).ble_enabled
            && (is_low_energy (power_mgmt_on_enter_standby-mode board env p h i) || false))
          ∙ quiet (is_low_energy p.mode);
    }

no_sleep-Inv : (b : Bool) (p : Power) → Inv p → Inv (record p { no_sleep = b })
unfolding disturbs
no_sleep-Inv b p h = record {
  timer = no_sleep-Sound p h.timer b;
  armed = h.armed;
  silent = h.silent;
}

-- Every event, on every path of the handler, keeps the invariant: the timer calls are sound, the timer exists
-- exactly outside the performance mode, and Bluetooth is off in the low energy mode and in the active state.
pub sys_power_mgmt_handler-Inv :
    (board : Board) (env : Env) (event : Event) (p : Power)
    → Inv p
    → Inv (sys_power_mgmt_handler board env event p)
unfolding sys_power_mgmt_handler
sys_power_mgmt_handler-Inv board env system_power_mgmt_event p h =
    keep_awake-Inv (update_mode env p).state (update_mode env p) (update_mode-Inv env p h)
sys_power_mgmt_handler-Inv board env system_mode_change_event p h =
    Inv-if env.active (record (power_mgmt_on_enter_active board p).1 { no_sleep = true })
      (record (power_mgmt_on_enter_standby board env p).1 { no_sleep = false })
      (no_sleep-Inv true _ (active-Inv board p h))
      (no_sleep-Inv false _ (standby-Inv board env p h.timer))
sys_power_mgmt_handler-Inv board env system_ota_event p h = no_sleep-Inv true p h
sys_power_mgmt_handler-Inv board env other_event p h = h

-- One step of the running node.
pub data Step (board : Board) : Power → Power → Type 0 where
  handled :
      (env : Env) (event : Event) (p : Power)
      → Step board p (sys_power_mgmt_handler board env event p)

-- Any number of steps after the boot and the first standby, as `app_main` makes them.
pub data Reachable (board : Board) : Power → Type 0 where
  booted :
      (env : Env) (p : Power)
      → p.calls ≡ []
      → p.power_save_timer ≡ false
      → Reachable board (power_mgmt_on_enter_standby board env (power_mgmt_init board p).1).1
  stepped : {p q : Power} → Reachable board p → Step board p q → Reachable board q

boot-Sound : (board : Board) (p : Power) → Sound p → Sound (power_mgmt_init board p).1
boot-Sound board p h = power_mgmt_init-Sound p h board

fresh-Sound : (p : Power) → p.calls ≡ [] → p.power_save_timer ≡ false → Sound p
unfolding timer_exists is_sound
fresh-Sound p none off = record {
  exists = ap timer_exists none ∙ sym off;
  sound = ap is_sound none;
}

-- In every state that is reached from a boot, whatever was in the retained memory, the invariant holds.
pub Reachable-Inv : (board : Board) (p : Power) → Reachable board p → Inv p
Reachable-Inv board _ (booted env p none off) =
    standby-Inv board env (power_mgmt_init board p).1 (boot-Sound board p (fresh-Sound p none off))
Reachable-Inv board _ (stepped {p} r (handled env event _)) =
    sys_power_mgmt_handler-Inv board env event p (Reachable-Inv board p r)
