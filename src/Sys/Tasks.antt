-- ===== src/Sys/Tasks.antt =====
-- The start and the stop of the tasks in components/sys/sys.c, over the handles of `mcu_tasks_t`. Profiling is off, as in
-- include/settings.h.
use rfmarkit_esp_node.Base.{ℕ, Bool, false, Option, none, some, List, ◌∷◌, if◌then◌else◌}

pub data TaskName : Type 0 where
  app_data_client app_monitor app_system_loop : TaskName

pub data TimerName : Type 0 where
  discovery_timer time_sync_timer power_mgmt_timer : TimerName

-- The calls of FreeRTOS, with the handle of the task that `xTaskCreate` creates, or none where it fails; a deletion of
-- NULL deletes the task that calls it.
pub data TaskCall : Type 0 where
  create_task : TaskName → Option ℕ → TaskCall
  delete_task : Option ℕ → TaskCall
  stop_timer : TimerName → TaskCall

-- The handles, none for NULL; and whether the task that calls these functions is still there.
pub record Tasks : Type 0 where
  pub app_data_client_task : Option ℕ
  pub app_monitor_task : Option ℕ
  pub app_system_loop_task : Option ℕ
  pub caller_runs : Bool
  pub calls : List TaskCall

unfoldable pub handle_of : TaskName → Tasks → Option ℕ
handle_of app_data_client t = t.app_data_client_task
handle_of app_monitor t = t.app_monitor_task
handle_of app_system_loop t = t.app_system_loop_task

unfoldable pub with_handle : TaskName → Option ℕ → Tasks → Tasks
with_handle app_data_client h t = record t { app_data_client_task = h }
with_handle app_monitor h t = record t { app_monitor_task = h }
with_handle app_system_loop h t = record t { app_system_loop_task = h }

-- `launch_task`, by the handle that is there and the one that is created
unfoldable pub launch_by : TaskName → (handle created : Option ℕ) → Tasks → Tasks
unfolding with_handle
launch_by name (some h) created t = t
launch_by name none none t = record t { calls = create_task name none ∷ t.calls }
launch_by name none (some h) t =
    with_handle name (some h) (record t { calls = create_task name (some h) ∷ t.calls })

unfoldable pub launch_task : TaskName → Option ℕ → Tasks → Tasks
unfolding launch_by handle_of
launch_task name created t = launch_by name (handle_of name t) created t

-- `sys_start_tasks`, with what the three creations return
unfoldable pub sys_start_tasks : (client monitor loop : Option ℕ) → Tasks → Tasks
unfolding launch_task
sys_start_tasks client monitor loop t =
    launch_task app_system_loop loop
      (launch_task app_monitor monitor (launch_task app_data_client client t))

-- `vTaskDelete` on a handle, and the handle set to NULL
unfoldable pub delete_by : TaskName → Option ℕ → Tasks → Tasks
unfolding with_handle
delete_by name none t = record t { caller_runs = false; calls = delete_task none ∷ t.calls }
delete_by name (some h) t =
    with_handle name none (record t { calls = delete_task (some h) ∷ t.calls })

unfoldable pub delete : TaskName → Tasks → Tasks
unfolding delete_by handle_of
delete name t = if t.caller_runs then delete_by name (handle_of name t) t else t

-- `sys_stop_tasks`
unfoldable pub sys_stop_tasks : Tasks → Tasks
unfolding delete
sys_stop_tasks t = delete app_data_client (delete app_monitor (delete app_system_loop t))

-- `sys_stop_timers`
unfoldable pub sys_stop_timers : Tasks → Tasks
sys_stop_timers t = record t {
  calls =
      stop_timer power_mgmt_timer
      ∷ stop_timer time_sync_timer
      ∷ stop_timer discovery_timer
      ∷ t.calls;
}
