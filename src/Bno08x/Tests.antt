-- ===== src/Bno08x/Tests.antt =====
-- The theorem on lib/bno08x/bno08x.c at a concrete sensor.
use rfmarkit_esp_node.Base.{◌≡◌, refl, arith, true, false, some, []}
use rfmarkit_esp_node.Esp.{ok}
use rfmarkit_esp_node.Node.{imu_status_ready, imu_status_fail}
use rfmarkit_esp_node.Bno08x.{Imu, Build, Driver, bno08x_toggle}
use rfmarkit_esp_node.Bno08x.Toggle.{bno08x_toggle-on}

abbrev off : Imu
off = record {
  initialized = true;
  status = imu_status_ready;
  enabled = false;
  mutex = true;
  target_fps = 100;
  calls = [];
}

abbrev linear : Build
linear = record { use_linear_acceleration = true; use_gyro = true; slow_interval = 500 }

abbrev broken : Driver
broken = record { initialize_ok = false; sleep_ok = false }

bno08x_toggle-on_example :
    (p' : Imu) × (bno08x_toggle linear broken true off ≡ some (ok, p'))
    × (p'.enabled ≡ true)
    × (p'.status ≡ imu_status_fail)
bno08x_toggle-on_example = bno08x_toggle-on linear broken off refl (omega arith)
