-- ===== src/Power/Saving.antt =====
-- `app_power_save` of components/sys/power_mgmt.c: light sleeps until the sensor moves, or too many of them.
use rfmarkit_esp_node.Base.{
  ℕ, zero, suc, ◌+◌, ◌≡◌, Bool, true, false, ◌||◌, Option, none, some, List, [], ◌∷◌, ◌++◌,
  replicate, ltb, if◌then◌else◌,
}
use rfmarkit_esp_node.Base.Outcome.{Outcome, done, out_of_fuel, ◌>>=◌}
use rfmarkit_esp_node.Spatial.{Floats, Vector3, spatial_vector_multiply_plus, spatial_vector_norm}
use rfmarkit_esp_node.Power.{
  Power, Env, Board, power_standby, power_deep_sleep, call, imu_read, imu_buffer_reset, imu_toggle,
  enable_timer_wakeup, light_sleep_start, sys_start_tasks, sys_stop_tasks, sys_stop_timers,
}
use rfmarkit_esp_node.Power.Events.{
  power_mgmt_on_enter_standby, power_mgmt_on_enter_power_save, power_mgmt_on_enter_deep_sleep,
}
use rfmarkit_esp_node.Power.Boot.{Booted, running, asleep, restarted}

-- `above_limit` says whether a norm is greater than `CONFIG_POWER_SAVE_MOTION_LIMIT`.
module _ {F : Type 0} (fs : Floats F) (above_limit : F → Bool) (board : Board) (env : Env) where
  -- The loop that reads the sensor until a read succeeds: none for a read that fails.
  unfoldable pub await_acc : List (Option (Vector3 F)) → Power → Outcome (Vector3 F × Power)
  unfolding call
  await_acc [] p = out_of_fuel
  await_acc (none ∷ reads) p = await_acc reads (call imu_read p)
  await_acc (some acc ∷ reads) p = done (acc, call imu_read p)

  unfoldable pub moved : Vector3 F → Vector3 F → Bool
  unfolding spatial_vector_multiply_plus spatial_vector_norm
  moved acc old_acc =
      above_limit (spatial_vector_norm fs (spatial_vector_multiply_plus fs acc old_acc fs.neg_one))

  -- A light sleep of 10 seconds, and the sensor switched on again.
  unfoldable pub light_sleep : Power → Power
  unfolding call
  light_sleep p =
      let q =
        call light_sleep_start (call (imu_toggle false) (call (enable_timer_wakeup 10000000) p)) in
      call imu_buffer_reset (call (imu_toggle true) q)

  -- How the task ends when the sensor has moved.
  unfoldable pub resume : Power → Booted
  unfolding call power_mgmt_on_enter_standby
  resume p = running (call sys_start_tasks (power_mgmt_on_enter_standby board env p).1)

  -- The loop, with what the reads of each round return, and `CONFIG_POWER_SAVE_CYCLE_MAX_COUNT`
  unfoldable pub save_loop :
      ℕ → List (List (Option (Vector3 F))) → Vector3 F → ℕ → Power → Outcome Booted
  unfolding light_sleep await_acc moved resume power_mgmt_on_enter_deep_sleep
  save_loop max_count [] old_acc cycle_count p = out_of_fuel
  save_loop max_count (reads ∷ rest) old_acc cycle_count p =
      await_acc reads (light_sleep p) >>= λ r.
      let again = save_loop max_count rest r.0 (cycle_count + 1) r.1 in
      if moved r.0 old_acc
      then done (resume r.1)
      else if ltb max_count (cycle_count + 1)
      then done (asleep (power_mgmt_on_enter_deep_sleep board true r.1))
      else again

  -- `app_power_save`
  unfoldable pub app_power_save :
      ℕ → List (Option (Vector3 F)) → List (List (Option (Vector3 F))) → Power → Outcome Booted
  unfolding call power_mgmt_on_enter_power_save await_acc save_loop
  app_power_save max_count reads rounds p =
      let q = (power_mgmt_on_enter_power_save (call sys_stop_timers (call sys_stop_tasks p))).1 in
      await_acc reads (call imu_buffer_reset q) >>= λ r. save_loop max_count rounds r.0 0 r.1

  -- What the reads of a round return: some that fail, and one that succeeds.
  abbrev pub reads_of : ℕ × Vector3 F → List (Option (Vector3 F))
  reads_of (failed, acc) = replicate failed none ++ (some acc ∷ [])

  -- Whether one of the next n readings has moved away from the one before it.
  unfoldable pub moves_within : ℕ → Vector3 F → List (ℕ × Vector3 F) → Bool
  moves_within zero acc rounds = false
  moves_within (suc n) acc [] = false
  moves_within (suc n) acc (r ∷ rounds) = moved r.1 acc || moves_within n r.1 rounds

  -- Running in standby with the network and the REST server up if the sensor has moved, and asleep if it has not.
  abbrev pub Ended : Bool → Booted → Type 0
  Ended true (running q) =
      (q.state ≡ power_standby)
      × (q.peripheral_state.wifi_initialized ≡ true)
      × (q.peripheral_state.controller_initialized ≡ true)
  Ended false (asleep q) = q.state ≡ power_deep_sleep
  Ended true (asleep q) = ⊥
  Ended true (restarted q) = ⊥
  Ended false (running q) = ⊥
  Ended false (restarted q) = ⊥
