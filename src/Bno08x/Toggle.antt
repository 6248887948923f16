-- ===== src/Bno08x/Toggle.antt =====
-- `bno08x_toggle` of lib/bno08x/bno08x.c: its code and what it leaves.
use rfmarkit_esp_node.Base.{
  ℕ, ◌≡◌, ◌≢◌, refl, arith, Bool, true, false, not, some, ◌==◌, if◌then◌else◌,
}
use rfmarkit_esp_node.Esp.{ok, fail}
use rfmarkit_esp_node.Node.{imu_status_fail}
use rfmarkit_esp_node.Bno08x.{
  Imu, Build, Driver, call, bno08x_toggle, enable, disable, same_bool, code, as_bool, bno08x_config,
  enable_reports,
}

not_zero : (k : ℕ) → k ≢ 0 → (k == 0) ≡ false
not_zero k h = ground arith

by_start :
    (b : Build) (d : Driver) (p : Imu) (t : Bool)
    → d.initialize_ok ≡ t
    → p.enabled ≡ false
    → p.target_fps ≢ 0
    → (p' : Imu) × (bno08x_toggle b d true p ≡ some (if d.initialize_ok then fail else ok, p'))
      × (p'.enabled ≡ true)
      × (p'.status ≡ (if d.initialize_ok then p.status else imu_status_fail))
unfolding bno08x_toggle enable same_bool code as_bool bno08x_config call enable_reports
by_start b d p true start off rate =
    rw start (rw off (rw (not_zero p.target_fps rate) (_, refl, refl, ground arith)))
by_start b d p false start off rate = rw start (rw off (_, refl, refl, refl))

-- Switching on a sensor that is off, at a rate that is not 0: where the driver starts, the sensor is on, and the code
-- says a failure; where it does not start, the code says success, and the sensor is taken to be on with the status of
-- a failure.
pub bno08x_toggle-on :
    (b : Build) (d : Driver) (p : Imu)
    → p.enabled ≡ false
    → p.target_fps ≢ 0
    → (p' : Imu) × (bno08x_toggle b d true p ≡ some (if d.initialize_ok then fail else ok, p'))
      × (p'.enabled ≡ true)
      × (p'.status ≡ (if d.initialize_ok then p.status else imu_status_fail))
bno08x_toggle-on b d p off rate = by_start b d p d.initialize_ok refl off rate

by_sleep :
    (b : Build) (d : Driver) (p : Imu) (t : Bool)
    → d.sleep_ok ≡ t
    → p.enabled ≡ true
    → (p' : Imu) × (bno08x_toggle b d false p ≡ some (if d.sleep_ok then ok else fail, p'))
      × (p'.enabled ≡ not d.sleep_ok)
unfolding bno08x_toggle disable same_bool code call
by_sleep b d p true slept on = rw slept (rw on (_, refl, refl))
by_sleep b d p false slept on = rw slept (rw on (_, refl, refl))

-- Switching off a sensor that is on: the code says whether the driver went to sleep, and the sensor is off exactly
-- where it did.
pub bno08x_toggle-off :
    (b : Build) (d : Driver) (p : Imu)
    → p.enabled ≡ true
    → (p' : Imu) × (bno08x_toggle b d false p ≡ some (if d.sleep_ok then ok else fail, p'))
      × (p'.enabled ≡ not d.sleep_ok)
bno08x_toggle-off b d p on = by_sleep b d p d.sleep_ok refl on
