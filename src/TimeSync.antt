-- ===== src/TimeSync.antt =====
-- components/sys/time_sync.c: the synchronisation of the clock.
pub mod Fallback
mod Tests
use rfmarkit_esp_node.Base.{
  ℕ, zero, suc, ◌+◌, Bool, true, false, List, [], ◌∷◌, length, ltb, leb, if◌then◌else◌,
}
use rfmarkit_esp_node.Node.{
  Node, SysEvent, ntp_synced, set_sys_event, call, sntp_setservername, sntp_init, sntp_stop,
}

-- `CONFIG_NTP_PRIMARY_MAX_RETRY`, `CONFIG_NTP_TIMEOUT_S` and `CONFIG_NTP_HOST_IP_ADDR_BACKUP`, and the text of the
-- gateway's address
pub record Servers : Type 0 where
  pub primary_max_retry : ℕ
  pub timeout_s : ℕ
  pub backup : List ℕ
  pub gateway : List ℕ

-- `time_sync_notification_cb`
unfoldable pub time_sync_notification_cb : Node → Node
unfolding set_sys_event
time_sync_notification_cb n = set_sys_event ntp_synced (record n { ntp_synced = true })

-- The server that `sys_time_sync_handler` sets.
unfoldable pub server : Servers → Node → List ℕ
server s n =
    if leb n.sntp_retry_num s.primary_max_retry
    then (if ltb 0 (length n.ntp_host_ip_addr) then n.ntp_host_ip_addr else s.gateway)
    else s.backup

-- The loop that waits: `reset` says what the k-th look at the status finds. It makes at most `timeout_s` rounds.
unfoldable pub wait_sync : (ℕ → Bool) → (timeout_s fuel n_retry : ℕ) → ℕ
wait_sync reset timeout_s zero n_retry = n_retry
wait_sync reset timeout_s (suc fuel) n_retry =
    let rest = wait_sync reset timeout_s fuel (n_retry + 1) in
    if reset n_retry then (if ltb (n_retry + 1) timeout_s then rest else n_retry + 1) else n_retry

-- `sys_time_sync_handler`, under its mutex; `notified` says whether the callback is called while it waits.
unfoldable pub sys_time_sync_handler : Servers → (ℕ → Bool) → Bool → Node → Node
unfolding server wait_sync call time_sync_notification_cb
sys_time_sync_handler s reset notified n =
    let waiting = call sntp_init (call (sntp_setservername (server s n)) n) in
    let n_retry = wait_sync reset s.timeout_s s.timeout_s 0 in
    record (call sntp_stop (if notified then time_sync_notification_cb waiting else waiting)) {
      sntp_retry_num = if leb s.timeout_s n_retry then n.sntp_retry_num + 1 else 0;
      task_time_sync = false;
    }
