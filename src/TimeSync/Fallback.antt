-- ===== src/TimeSync/Fallback.antt =====
-- components/sys/time_sync.c: the wait of a run, and the server over runs that fail.
use rfmarkit_esp_node.Base.{
  ℕ, zero, suc, ◌+◌, sym, ◌≢◌, ◌≤◌, ◌<◌, ◌≡◌, ◌∙◌, refl, ap, arith, Bool, true, false, List, [],
  ◌∷◌, length, ltb, leb, le→leb, if◌then◌else◌,
}
use mathlib.Core.Bool.{true≢false}
use rfmarkit_esp_node.Node.{Node, set_sys_event, call, sntp_setservername, sntp_init, sntp_stop}
use rfmarkit_esp_node.TimeSync.{
  Servers, sys_time_sync_handler, time_sync_notification_cb, wait_sync, server,
}

-- With as much fuel as seconds are left, the loop ends by itself: at the first look that finds a synchronised clock, or
-- at the timeout.
wait_sync-none :
    (timeout fuel n : ℕ)
    → n + suc fuel ≡ timeout
    → wait_sync (λ k. true) timeout (suc fuel) n ≡ timeout
unfolding wait_sync
wait_sync-none timeout zero n e = ground arith
wait_sync-none timeout (suc fuel) n e = ground (arith, wait_sync-none timeout fuel (n + 1))

one_look :
    (t : Bool) (n k timeout rest : ℕ)
    → n ≤ k
    → k < timeout
    → (t ≡ true → n ≢ k)
    → (n + 1 ≤ k → rest ≤ k)
    → (if t then (if ltb (n + 1) timeout then rest else n + 1) else n) ≤ k
one_look true n k timeout rest le lt differ later = ground (arith, differ refl, later)
one_look false n k timeout rest le lt differ later = le

wait_sync-early :
    (reset : ℕ → Bool) (timeout fuel n k : ℕ)
    → n + fuel ≡ timeout
    → n ≤ k
    → k < timeout
    → reset k ≡ false
    → wait_sync reset timeout fuel n ≤ k
unfolding wait_sync
wait_sync-early reset timeout zero n k e le lt found = absurd (omega arith)
wait_sync-early reset timeout (suc fuel) n k e le lt found =
    one_look (reset n) n k timeout (wait_sync reset timeout fuel (n + 1)) le lt
      (λ t e'. absurd (true≢false (sym t ∙ ap reset e' ∙ found)))
      (λ le'. wait_sync-early reset timeout fuel (n + 1) k (omega arith) le' lt found)

-- The handler n times, on clocks that stay unsynchronised.
unfoldable pub failures : Servers → ℕ → Node → Node
unfolding sys_time_sync_handler
failures s zero n = n
failures s (suc k) n = failures s k (sys_time_sync_handler s (λ i. true) false n)

full_wait : (timeout : ℕ) → 0 < timeout → wait_sync (λ i. true) timeout timeout 0 ≡ timeout
full_wait zero h = absurd (omega arith)
full_wait (suc t) h = wait_sync-none (suc t) t 0 (omega arith)

handler-failed :
    (s : Servers) (n : Node)
    → 0 < s.timeout_s
    → (sys_time_sync_handler s (λ i. true) false n).sntp_retry_num ≡ n.sntp_retry_num + 1
unfolding sys_time_sync_handler
handler-failed s n some_time = ground (arith, full_wait s.timeout_s some_time)

failures-count :
    (s : Servers) (k : ℕ) (n : Node)
    → 0 < s.timeout_s
    → (failures s k n).sntp_retry_num ≡ n.sntp_retry_num + k
unfolding failures
failures-count s zero n some_time = omega arith
failures-count s (suc k) n some_time = omega (
  arith,
  failures-count s k (sys_time_sync_handler s (λ i. true) false n) some_time,
  handler-failed s n some_time,
)

failures-host :
    (s : Servers) (k : ℕ) (n : Node) → (failures s k n).ntp_host_ip_addr ≡ n.ntp_host_ip_addr
unfolding failures sys_time_sync_handler
failures-host s zero n = refl
failures-host s (suc k) n = failures-host s k (sys_time_sync_handler s (λ i. true) false n)

host_given :
    (host gateway : List ℕ) → host ≢ [] → (if ltb 0 (length host) then host else gateway) ≡ host
host_given [] gateway h = absurd (h refl)
host_given (c ∷ cs) gateway h = ground arith

server-host :
    (s : Servers) (n : Node) (host : List ℕ)
    → n.ntp_host_ip_addr ≡ host
    → host ≢ []
    → n.sntp_retry_num ≤ s.primary_max_retry
    → server s n ≡ host
unfolding server
server-host s n host e given few = rw (le→leb _ _ few) (rw e (host_given host s.gateway given))

server-backup :
    (s : Servers) (n : Node) → s.primary_max_retry < n.sntp_retry_num → server s n ≡ s.backup
unfolding server
server-backup s n many = ground arith

by_count :
    (s : Servers) (n : Node) (host : List ℕ) (k : ℕ)
    → n.ntp_host_ip_addr ≡ host
    → host ≢ []
    → n.sntp_retry_num ≡ k
    → server s n ≡ (if leb k s.primary_max_retry then host else s.backup)
unfolding server
by_count s n host k e given count =
    ap
      (λ i.
        if leb i s.primary_max_retry
        then (if ltb 0 (length n.ntp_host_ip_addr) then n.ntp_host_ip_addr else s.gateway)
        else s.backup)
      count
    ∙ ap (λ (h : List ℕ). if leb k s.primary_max_retry then h else s.backup)
        (ap (λ (h : List ℕ). if ltb 0 (length h) then h else s.gateway) e
          ∙ host_given host s.gateway given)

-- The server that a run asks after k failed ones.
server-failures :
    (s : Servers) (k : ℕ) (n : Node)
    → 0 < s.timeout_s
    → n.ntp_host_ip_addr ≢ []
    → n.sntp_retry_num ≡ 0
    → server s (failures s k n)
      ≡ (if leb k s.primary_max_retry then n.ntp_host_ip_addr else s.backup)
server-failures s k n some_time given none_yet =
    let count : (failures s k n).sntp_retry_num ≡ k =
      omega (arith, failures-count s k n some_time) in
    by_count s (failures s k n) n.ntp_host_ip_addr k (failures-host s k n) given count

handler-synchronised :
    (s : Servers) (reset : ℕ → Bool) (notified : Bool) (k : ℕ) (n : Node)
    → k < s.timeout_s
    → reset k ≡ false
    → (sys_time_sync_handler s reset notified n).sntp_retry_num ≡ 0
unfolding sys_time_sync_handler
handler-synchronised s reset notified k n lt found =
    ground (
      arith,
      wait_sync-early reset s.timeout_s s.timeout_s 0 k (omega arith) (omega arith) lt found,
    )

host_kept :
    (s : Servers) (reset : ℕ → Bool) (notified : Bool) (n : Node)
    → (sys_time_sync_handler s reset notified n).ntp_host_ip_addr ≡ n.ntp_host_ip_addr
unfolding sys_time_sync_handler
host_kept s reset true n = refl
host_kept s reset false n = refl

cleared :
    (s : Servers) (reset : ℕ → Bool) (notified : Bool) (n : Node)
    → (sys_time_sync_handler s reset notified n).task_time_sync ≡ false
unfolding sys_time_sync_handler
cleared s reset notified n = refl

-- A run that finds a synchronised clock within the timeout brings the handler back to the host that is configured,
-- however many runs failed before it, and clears the bit of its task.
pub server-synchronised :
    (s : Servers) (reset : ℕ → Bool) (notified : Bool) (k : ℕ) (n : Node)
    → k < s.timeout_s
    → reset k ≡ false
    → n.ntp_host_ip_addr ≢ []
    → (server s (sys_time_sync_handler s reset notified n) ≡ n.ntp_host_ip_addr)
      × ((sys_time_sync_handler s reset notified n).task_time_sync ≡ false)
server-synchronised s reset notified k n lt found given = (
  server-host s (sys_time_sync_handler s reset notified n) n.ntp_host_ip_addr
      (host_kept s reset notified n) given
      (omega (arith, handler-synchronised s reset notified k n lt found)),
  cleared s reset notified n,
)

same_calls :
    (notified : Bool) (n : Node) (h : List ℕ)
    → (call sntp_stop (
        if notified
        then time_sync_notification_cb (call sntp_init (call (sntp_setservername h) n))
        else call sntp_init (call (sntp_setservername h) n))).calls
      ≡ sntp_stop ∷ sntp_init ∷ sntp_setservername h ∷ n.calls
unfolding call time_sync_notification_cb set_sys_event
same_calls true n h = refl
same_calls false n h = refl

-- With a timeout of a second or more, a host that is configured, and a count of 0 at first: after k runs of the handler
-- that find no synchronised clock, the next run, whatever it finds, sets one server, starts the client and stops it
-- again, in this order, and the server is the host if k is at most `CONFIG_NTP_PRIMARY_MAX_RETRY`, and the backup if it is
-- more; and the count is k before that run.
pub handler-failures :
    (s : Servers) (k : ℕ) (n : Node) (reset : ℕ → Bool) (notified : Bool)
    → 0 < s.timeout_s
    → n.ntp_host_ip_addr ≢ []
    → n.sntp_retry_num ≡ 0
    → ((sys_time_sync_handler s reset notified (failures s k n)).calls
        ≡ sntp_stop
          ∷ sntp_init
          ∷ sntp_setservername (if leb k s.primary_max_retry then n.ntp_host_ip_addr else s.backup)
          ∷ (failures s k n).calls)
      × ((failures s k n).sntp_retry_num ≡ k)
unfolding sys_time_sync_handler call time_sync_notification_cb set_sys_event
handler-failures s k n reset notified some_time given none_yet = (
  same_calls notified (failures s k n) (server s (failures s k n))
      ∙ ap (λ (h : List ℕ). sntp_stop ∷ sntp_init ∷ sntp_setservername h ∷ (failures s k n).calls)
          (server-failures s k n some_time given none_yet),
  omega (arith, failures-count s k n some_time),
)
