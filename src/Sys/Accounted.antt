-- ===== src/Sys/Accounted.antt =====
-- components/sys/sys.c: the tasks that `sys_start_tasks` creates and `sys_stop_tasks` deletes.
use rfmarkit_esp_node.Base.{
  ℕ, ◌+◌, ◌≡◌, refl, arith, Bool, true, false, Option, none, some, List, [], ◌∷◌, ◌==◌,
  if◌then◌else◌,
}
use rfmarkit_esp_node.Sys.Tasks.{
  Tasks, TaskName, TaskCall, app_data_client, app_monitor, app_system_loop, create_task,
  delete_task, stop_timer, handle_of, with_handle, launch_by, launch_task, sys_start_tasks,
  delete_by, delete, sys_stop_tasks, sys_stop_timers,
}

-- What other code does with the tasks: starts them, with what the creations return, or stops them and the timers from a
-- task of its own.
pub data Op : Type 0 where
  start : (client monitor loop : Option ℕ) → Op
  stop : Op

unfoldable pub run_ops : List Op → Tasks → Tasks
unfolding sys_start_tasks sys_stop_tasks sys_stop_timers
run_ops [] t = t
run_ops (start client monitor loop ∷ ops) t = run_ops ops (sys_start_tasks client monitor loop t)
run_ops (stop ∷ ops) t =
    let s = sys_stop_tasks (record t { caller_runs = true }) in
    run_ops ops (if s.caller_runs then sys_stop_timers s else s)

unfoldable pub is_handle : ℕ → Option ℕ → ℕ
is_handle h none = 0
is_handle h (some k) = if k == h then 1 else 0

-- How often a handle was created, was deleted, and is held.
unfoldable pub created : ℕ → List TaskCall → ℕ
unfolding is_handle
created h [] = 0
created h (create_task name k ∷ cs) = is_handle h k + created h cs
created h (delete_task k ∷ cs) = created h cs
created h (stop_timer name ∷ cs) = created h cs

unfoldable pub deleted : ℕ → List TaskCall → ℕ
unfolding is_handle
deleted h [] = 0
deleted h (create_task name k ∷ cs) = deleted h cs
deleted h (delete_task k ∷ cs) = is_handle h k + deleted h cs
deleted h (stop_timer name ∷ cs) = deleted h cs

unfoldable pub held : ℕ → Tasks → ℕ
unfolding is_handle
held h t =
    is_handle h t.app_data_client_task
    + is_handle h t.app_monitor_task
    + is_handle h t.app_system_loop_task

module _ (h : ℕ) where
  record IsAccounted (t : Tasks) : Type 0 where
    balance : created h t.calls ≡ deleted h t.calls + held h t

  launch_by-IsAccounted :
      (name : TaskName) (handle new : Option ℕ) (t : Tasks)
      → handle_of name t ≡ handle
      → IsAccounted t
      → IsAccounted (launch_by name handle new t)
  unfolding launch_by handle_of with_handle created deleted held is_handle
  launch_by-IsAccounted name (some k) new t e b = b
  launch_by-IsAccounted name none none t e b = record { balance = omega (arith, b.balance) }
  launch_by-IsAccounted app_data_client none (some k) t e b = record {
    balance = ground (arith, e, b.balance);
  }
  launch_by-IsAccounted app_monitor none (some k) t e b = record {
    balance = ground (arith, e, b.balance);
  }
  launch_by-IsAccounted app_system_loop none (some k) t e b = record {
    balance = ground (arith, e, b.balance);
  }

  delete_by-IsAccounted :
      (name : TaskName) (handle : Option ℕ) (t : Tasks)
      → handle_of name t ≡ handle
      → IsAccounted t
      → IsAccounted (delete_by name handle t)
  unfolding delete_by handle_of with_handle created deleted held is_handle
  delete_by-IsAccounted name none t e b = record { balance = omega (arith, b.balance) }
  delete_by-IsAccounted app_data_client (some k) t e b = record {
    balance = ground (arith, e, b.balance);
  }
  delete_by-IsAccounted app_monitor (some k) t e b = record {
    balance = ground (arith, e, b.balance);
  }
  delete_by-IsAccounted app_system_loop (some k) t e b = record {
    balance = ground (arith, e, b.balance);
  }

  start-IsAccounted :
      (client monitor loop : Option ℕ) (t : Tasks)
      → IsAccounted t
      → IsAccounted (sys_start_tasks client monitor loop t)
  unfolding sys_start_tasks launch_task
  start-IsAccounted client monitor loop t b = launch_by-IsAccounted app_system_loop _ loop _ refl (
      launch_by-IsAccounted app_monitor _ monitor _ refl
        (launch_by-IsAccounted app_data_client _ client t refl b))

  delete-IsAccounted : (name : TaskName) (t : Tasks) → IsAccounted t → IsAccounted (delete name t)
  unfolding delete
  delete-IsAccounted name t b =
      elim t.caller_runs
        as (λ r. IsAccounted (if r then delete_by name (handle_of name t) t else t)) [
          | true ↦ delete_by-IsAccounted name _ t refl b
          | false ↦ b
        ]

  timers-IsAccounted :
      (r : Bool) (t : Tasks) → IsAccounted t → IsAccounted (if r then sys_stop_timers t else t)
  unfolding sys_stop_timers created deleted held
  timers-IsAccounted true t b = record { balance = b.balance }
  timers-IsAccounted false t b = b

  run_ops-IsAccounted : (ops : List Op) (t : Tasks) → IsAccounted t → IsAccounted (run_ops ops t)
  unfolding run_ops sys_stop_tasks held
  run_ops-IsAccounted [] t b = b
  run_ops-IsAccounted (start client monitor loop ∷ ops) t b =
      run_ops-IsAccounted ops _ (start-IsAccounted client monitor loop t b)
  run_ops-IsAccounted (stop ∷ ops) t b = run_ops-IsAccounted ops _ (
      timers-IsAccounted _ _ (
        delete-IsAccounted app_data_client _ (
          delete-IsAccounted app_monitor _ (
            delete-IsAccounted app_system_loop (record t { caller_runs = true })
              (record { balance = b.balance })))))

abbrev pub no_tasks : Tasks
no_tasks = record {
  app_data_client_task = none;
  app_monitor_task = none;
  app_system_loop_task = none;
  caller_runs = true;
  calls = [];
}

-- From the boot, after any sequence of starts and stops, whichever creations fail and wherever a stop ends the task that calls it:
-- a handle was created as often as it was deleted and is held, together.
pub run_ops-accounted :
    (ops : List Op) (h : ℕ)
    → created h (run_ops ops no_tasks).calls
      ≡ deleted h (run_ops ops no_tasks).calls + held h (run_ops ops no_tasks)
unfolding created deleted held
run_ops-accounted ops h = (run_ops-IsAccounted h ops no_tasks (record { balance = refl })).balance
