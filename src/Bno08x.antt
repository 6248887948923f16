-- ===== src/Bno08x.antt =====
-- lib/bno08x/bno08x.c: the adapter of the BNO08x sensor. The driver below it is a copy of another project's library: what
-- it answers is an argument, and that it was called is recorded, the latest first.
pub mod Toggle
mod Tests
use rfmarkit_esp_node.Base.{
  ℕ, ◌/◌, Bool, true, false, Option, none, some, List, [], ◌∷◌, ◌==◌, if◌then◌else◌,
}
use rfmarkit_esp_node.Base.OptionDo.{◌>>=◌}
use rfmarkit_esp_node.Esp.{EspErr, ok, fail}
use rfmarkit_esp_node.Node.{ImuStatus, imu_status_fail, imu_status_ready}

pub data Call : Type 0 where
  initialize hard_reset soft_reset mode_sleep driver_init : Call
  enable_linear_accelerometer enable_accelerometer enable_gyro enable_rotation_vector : ℕ → Call
  enable_step_counter enable_stability_classifier : ℕ → Call

-- `imu_t`
pub record Imu : Type 0 where
  pub initialized : Bool
  pub status : ImuStatus
  pub enabled : Bool
  pub mutex : Bool
  pub target_fps : ℕ
  pub calls : List Call

-- The build's choices: `CONFIG_USE_LINEAR_ACCELERATION`, `CONFIG_USE_GYRO` and `CONFIG_BNO08X_SLOW_INTERVAL_MS`
pub record Build : Type 0 where
  pub use_linear_acceleration : Bool
  pub use_gyro : Bool
  pub slow_interval : ℕ

-- The driver's answers: whether `BNO08x_initialize` and `BNO08x_mode_sleep` succeed.
pub record Driver : Type 0 where
  pub initialize_ok : Bool
  pub sleep_ok : Bool

unfoldable pub call : Call → Imu → Imu
call c p = record p { calls = c ∷ p.calls }

-- The reports that are switched on, at an interval in microseconds.
unfoldable pub enable_reports : Build → ℕ → Imu → Imu
unfolding call
enable_reports b interval p =
    let acc =
      call
        (if b.use_linear_acceleration
          then enable_linear_accelerometer interval
          else enable_accelerometer interval)
        p in
    let gyro = if b.use_gyro then call (enable_gyro interval) acc else acc in
    call (enable_stability_classifier b.slow_interval)
      (call (enable_step_counter b.slow_interval) (call (enable_rotation_vector interval) gyro))

-- `bno08x_config`; a rate of 0 divides by zero
unfoldable pub bno08x_config : Build → Driver → Imu → Option (EspErr × Imu)
unfolding enable_reports call
bno08x_config b d p =
    if d.initialize_ok
    then (if p.target_fps == 0
        then none
        else some (
          ok,
          record (enable_reports b (1000000 / p.target_fps) (call initialize p)) { enabled = true },
        ))
    else some (fail, record (call initialize p) { status = imu_status_fail })

-- `bno08x_init`; `created` says whether the mutex was
unfoldable pub bno08x_init : Build → Driver → Bool → Imu → Option (EspErr × Imu)
unfolding bno08x_config call
bno08x_init b d created p =
    bno08x_config b d
      (record (call driver_init (record p {
        enabled = false;
        mutex = created;
        status = if created then imu_status_ready else imu_status_fail;
      })) { initialized = true })

-- The code as a `bool`: `ESP_OK` is 0.
unfoldable pub as_bool : EspErr → Bool
as_bool ok = false
as_bool _ = true

unfoldable pub code : Bool → EspErr
code success = if success then ok else fail

unfoldable pub enable : Build → Driver → Imu → Option (EspErr × Imu)
unfolding bno08x_config call as_bool code
enable b d p = do
  configured ← bno08x_config b d (call hard_reset p)
  let success = as_bool configured.0
  some (
    code success,
    record configured.1 { enabled = if success then true else configured.1.enabled },
  )

unfoldable pub disable : Driver → Imu → EspErr × Imu
unfolding call code
disable d p = (
  code d.sleep_ok,
  record (call mode_sleep p) { enabled = if d.sleep_ok then false else p.enabled },
)

unfoldable pub same_bool : Bool → Bool → Bool
same_bool true b = b
same_bool false true = false
same_bool false false = true

-- `bno08x_toggle`
unfoldable pub bno08x_toggle : Build → Driver → Bool → Imu → Option (EspErr × Imu)
unfolding enable disable same_bool
bno08x_toggle b d on p =
    let enabled = enable b d p in
    if same_bool on p.enabled then some (ok, p) else if on then enabled else some (disable d p)

-- `bno08x_read`, on values of the driver of a type F: the quaternion's components are put in another order, and its
-- real part first. The acceleration is the linear one or not, as the build has it.
pub record Values (F : Type 0) : Type 0 where
  pub quat_i : F
  pub quat_j : F
  pub quat_k : F
  pub quat_real : F
  pub accel : F × F × F
  pub linear_accel : F × F × F
  pub gyro : F × F × F

pub record Datagram (F : Type 0) : Type 0 where
  pub quat : List F
  pub acc : F × F × F
  pub gyr : F × F × F

unfoldable pub bno08x_read :
    {F : Type 0} → Build → Option (Values F) → Datagram F → EspErr × Datagram F
bno08x_read b none out = (fail, out)
bno08x_read b (some v) out = (
  ok,
  record {
    quat = v.quat_real ∷ v.quat_i ∷ v.quat_j ∷ v.quat_k ∷ [];
    acc = if b.use_linear_acceleration then v.linear_accel else v.accel;
    gyr = if b.use_gyro then v.gyro else out.gyr;
  },
)

-- `bno08x_enabled`, `bno08x_self_test`, `bno08x_soft_reset`, `bno08x_hard_reset` and `bno08x_get_delay_us`
unfoldable pub bno08x_enabled : Imu → ℕ
bno08x_enabled p = if p.enabled then 1 else 0

unfoldable pub bno08x_self_test : Imu → EspErr
bno08x_self_test p = ok

unfoldable pub bno08x_soft_reset : Imu → Imu
unfolding call
bno08x_soft_reset p = call soft_reset p

unfoldable pub bno08x_hard_reset : Imu → Imu
unfolding call
bno08x_hard_reset p = call hard_reset p

-- `bno08x_interface_init`: an initialised sensor is left as it is, but for the rate.
unfoldable pub bno08x_interface_init : Build → Driver → Bool → ℕ → Imu → Option Imu
unfolding bno08x_init
bno08x_interface_init b d created target_fps p =
    let p' = record p { target_fps = target_fps } in
    let fresh = (do done ← bno08x_init b d created p'; some done.1) in
    if p.initialized then some p' else fresh
