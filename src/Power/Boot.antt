-- ===== src/Power/Boot.antt =====
-- The boot: `power_mgmt_wake_up_handler` of components/sys/power_mgmt.c, and `init` and `app_main` of main/app_main.c up to
-- the update guard. The other parts that `init` sets up have their own models.
use rfmarkit_esp_node.Base.{Bool, true, false, List, [], ◌∷◌, if◌then◌else◌}
use rfmarkit_esp_node.Base.Outcome.{Outcome, done, out_of_fuel, ◌>>=◌}
use rfmarkit_esp_node.Power.{
  PowerState, power_unknown, power_normal_boot, power_deep_sleep, power_waken, Power, Env, Board,
  call, power_mgmt_init, imu_interface_init, imu_read, imu_self_test, ring_buf_init,
  sys_start_tasks, restart,
}
use rfmarkit_esp_node.Power.Events.{power_mgmt_on_enter_standby, power_mgmt_on_enter_deep_sleep}

-- `esp_sleep_wakeup_cause_t`, as far as it is looked at
pub data WakeupCause : Type 0 where
  ext0 gpio timer other_cause : WakeupCause

unfoldable pub by_button : WakeupCause → Bool
by_button ext0 = true
by_button gpio = true
by_button timer = false
by_button other_cause = false

-- The loop that reads the sensor until a read succeeds, with what each read returns.
unfoldable pub await_read : List Bool → Power → Outcome Power
unfolding call
await_read [] p = out_of_fuel
await_read (succeeds ∷ reads) p =
    let rest = await_read reads (call imu_read p) in
    if succeeds then done (call imu_read p) else rest

-- `power_mgmt_wake_up_handler`: the state to go to. What it computes of the reading is only printed.
unfoldable pub power_mgmt_wake_up_handler :
    WakeupCause → List Bool → Power → Outcome (PowerState × Power)
unfolding by_button await_read call
power_mgmt_wake_up_handler cause reads p =
    if by_button cause
    then done (power_normal_boot, p)
    else (await_read reads (call imu_interface_init p) >>= λ q. done (power_deep_sleep, q))

-- How a boot ends: with the tasks running, asleep again, or in a restart.
pub data Booted : Type 0 where
  running asleep restarted : Power → Booted

-- The rest of `init`, and the start of the tasks.
unfoldable pub launch : Board → Env → Power → Power
unfolding call power_mgmt_on_enter_standby
launch board env p =
    call sys_start_tasks
      (call imu_self_test (call ring_buf_init (power_mgmt_on_enter_standby board env p).1))

-- What `init` does with the answer of the wake-up handler.
unfoldable pub on_waken : Board → Env → PowerState → Power → Booted
unfolding power_mgmt_on_enter_deep_sleep launch
on_waken board env power_deep_sleep p = asleep (power_mgmt_on_enter_deep_sleep board true p)
on_waken board env _ p = running (launch board env p)

-- What `init` does by the state after `power_mgmt_init`.
unfoldable pub start_up :
    Board → Env → WakeupCause → List Bool → PowerState → Power → Outcome Booted
unfolding power_mgmt_wake_up_handler on_waken launch call
start_up board env cause reads power_waken p =
    power_mgmt_wake_up_handler cause reads p >>= λ r. done (on_waken board env r.0 r.1)
start_up board env cause reads power_unknown p = done (restarted (call restart p))
start_up board env cause reads _ p = done (running (launch board env p))

-- `app_main`, from the memory that outlives the sleep; `power_save_timer`, which does not, is NULL,
-- and no call is made yet
unfoldable pub app_main : Board → Env → WakeupCause → List Bool → Power → Outcome Booted
unfolding start_up power_mgmt_init
app_main board env cause reads p =
    let q = (power_mgmt_init board (record p { power_save_timer = false; calls = [] })).1 in
    start_up board env cause reads q.state q
