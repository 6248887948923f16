-- ===== src/Power/Tests.antt =====
-- The theorems on components/sys/power_mgmt.c at a concrete run.
use rfmarkit_esp_node.Base.{ℕ, ◌+◌, ◌*◌, ◌%◌, refl, true, false, [], ◌∷◌, List}
use rfmarkit_esp_node.Spatial.{Floats, Vector3}
use rfmarkit_esp_node.Power.{
  Power, Env, Board, power_unknown, power_deep_sleep, power_mode_normal, no_peripheral,
  power_mgmt_init,
}
use rfmarkit_esp_node.Power.Events.{
  system_mode_change_event, power_mgmt_on_enter_standby, sys_power_mgmt_handler,
}
use rfmarkit_esp_node.Power.Reach.{Inv, handled, Reachable, booted, stepped, Reachable-Inv}

abbrev node_board : Board
node_board = record {
  imu_en_pin = true;
  hold_single_io = false;
  imu_pin = 5;
  blink_pin = 4;
  normal_tx_power = 40;
  max_tx_power = 80;
  wake_up_s = 60;
}

abbrev going_active : Env
going_active = record { timer_starts = true; active = true; imu_enabled = true }

abbrev no_power : Power
no_power = record {
  initialized = false;
  state = power_unknown;
  mode = power_mode_normal;
  next_mode = power_mode_normal;
  boot_count = 0;
  mutex = false;
  no_sleep = false;
  peripheral_state = no_peripheral;
  power_save_timer = false;
  calls = [];
}

abbrev in_standby : Power
in_standby =
    (power_mgmt_on_enter_standby node_board going_active (power_mgmt_init node_board no_power).1).1

in_standby-Reachable : Reachable node_board in_standby
in_standby-Reachable = booted going_active no_power refl refl

sent : Power
sent = sys_power_mgmt_handler node_board going_active system_mode_change_event in_standby

sent-Reachable : Reachable node_board sent
unfolding sent
sent-Reachable =
    stepped in_standby-Reachable (handled going_active system_mode_change_event in_standby)

Reachable-Inv_example : Inv sent
Reachable-Inv_example = Reachable-Inv node_board sent sent-Reachable

abbrev sleeper : Power
sleeper = record no_power { initialized = true; state = power_deep_sleep }

-- Bytes for the floats
abbrev byte_floats : Floats ℕ
byte_floats = record {
  add = λ a b. (a + b) % 256;
  mul = λ a b. (a * b) % 256;
  sqrt = λ a. a;
  neg_one = 255;
}

abbrev still : Vector3 ℕ
still = record { x = 1; y = 2; z = 10 }

abbrev tilted : Vector3 ℕ
tilted = record { x = 3; y = 2; z = 9 }

abbrev lying : List (ℕ × Vector3 ℕ)
lying = (0, still) ∷ (2, tilted) ∷ []
