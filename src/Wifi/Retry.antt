-- ===== src/Wifi/Retry.antt =====
-- components/sys/wifi.c: the retries of an attempt to connect.
use rfmarkit_esp_node.Base.{
  ℕ, suc, ◌+◌, ◌≤◌, ◌<◌, ◌≡◌, ◌⊎◌, inl, inr, ◌∙◌, refl, arith, Bool, true, false, ◌||◌, Option,
  some, List, [], ◌∷◌, if◌then◌else◌,
}
use native.Mathlib.Decide.{dec_lt}
use rfmarkit_esp_node.Node.{Node, wifi_fail, wifi_connected, wifi_disconnected}
use rfmarkit_esp_node.Wifi.{
  Wifi, WifiEvent, sta_start, sta_disconnected, got_ip, other_event, wifi_event_handler, wait_bits,
  run_events, sys_wifi_try_connect, sys_wifi_try_disconnect, report_attempt, clear_wifi_reconnect,
  without_wifi_fail, sys_wifi_reconnect_event_handler,
}

-- How often the driver reports a failure or an address.
unfoldable pub reports : List WifiEvent → ℕ
reports [] = 0
reports (sta_start ∷ es) = reports es
reports (sta_disconnected ∷ es) = suc (reports es)
reports (got_ip ∷ es) = suc (reports es)
reports (other_event ∷ es) = reports es

-- No start of the driver, which would fill up the retries.
abbrev pub NoStart : List WifiEvent → Type 0
NoStart [] = Unit {0}
NoStart (sta_start ∷ es) = ⊥
NoStart (sta_disconnected ∷ es) = NoStart es
NoStart (got_ip ∷ es) = NoStart es
NoStart (other_event ∷ es) = NoStart es

-- What an end of the wait within so many calls of `esp_wifi_connect` is.
abbrev pub EndsWithin : ℕ → Option Wifi → Type 0
EndsWithin bound o =
    (w' : Wifi) × (o ≡ some w') × ((w'.connected_bit || w'.fail_bit) ≡ true) × (w'.connects ≤ bound)

already :
    (t : Bool) (w : Wifi) (rest : Option Wifi) (bound : ℕ)
    → (w.connected_bit || w.fail_bit) ≡ t
    → w.connects ≤ bound
    → (t ≡ false → EndsWithin bound rest)
    → EndsWithin bound (if t then some w else rest)
already true w rest bound e c h = (w, refl, e, c)
already false w rest bound e c h = h refl

within : (a b : ℕ) (o : Option Wifi) → a ≤ b → EndsWithin a o → EndsWithin b o
within a b o le h = (h.0, h.1, h.2, omega (arith, h.3))

-- Whether the wait is over, or the retries are fewer than the reports to come.
abbrev pub IsEnding : Wifi → ℕ → Type 0
IsEnding w left = ((w.connected_bit || w.fail_bit) ≡ true) ⊎ (w.s_wifi_retry_num < left)

disconnected-IsEnding :
    (max_retry : ℕ) (w : Wifi) (left : ℕ)
    → w.s_wifi_retry_num < suc left
    → IsEnding (wifi_event_handler max_retry sta_disconnected w) left
unfolding wifi_event_handler
disconnected-IsEnding max_retry w left h = elim (dec_lt 0 w.s_wifi_retry_num) [
  | yes some_left ↦ inr (ground arith)
  | no none_left ↦ inl (ground arith)
]

disconnected-same :
    (max_retry : ℕ) (w : Wifi)
    → (wifi_event_handler max_retry sta_disconnected w).connects
        + (wifi_event_handler max_retry sta_disconnected w).s_wifi_retry_num
      ≡ w.connects + w.s_wifi_retry_num
unfolding wifi_event_handler
disconnected-same max_retry w = ground arith

open_end :
    (w : Wifi) (left : ℕ)
    → IsEnding w left
    → (w.connected_bit || w.fail_bit) ≡ false
    → w.s_wifi_retry_num < left
open_end w left (inl e) f = absurd cc
open_end w left (inr h) f = h

-- The driver's reports end the wait: it is over after as many reports as there are retries left, and one more, with
-- one call of `esp_wifi_connect` for a retry at most.
wait_bits-ends :
    (max_retry : ℕ) (es : List WifiEvent) (w : Wifi)
    → NoStart es
    → IsEnding w (reports es)
    → EndsWithin (w.connects + w.s_wifi_retry_num) (wait_bits max_retry es w)
unfolding wait_bits reports
wait_bits-ends max_retry [] w plain (inl e) = rw e (w, refl, e, omega arith)
wait_bits-ends max_retry [] w plain (inr h) = absurd (omega arith)
wait_bits-ends max_retry (sta_start ∷ es) w plain h = absurd plain
wait_bits-ends max_retry (sta_disconnected ∷ es) w plain h =
    already _ w _ _ refl (omega arith) (λ f.
      within _ _ _ (omega (arith, disconnected-same max_retry w)) (
        wait_bits-ends max_retry es (wifi_event_handler max_retry sta_disconnected w) plain
          (disconnected-IsEnding max_retry w (reports es) (open_end w _ h f))))
wait_bits-ends max_retry (got_ip ∷ es) w plain h =
    already _ w _ _ refl (omega arith)
      (λ f. wait_bits-ends max_retry es (wifi_event_handler max_retry got_ip w) plain (inl refl))
wait_bits-ends max_retry (other_event ∷ es) w plain h =
    already _ w _ _ refl (omega arith) (λ f. wait_bits-ends max_retry es w plain h)

-- Whatever happens to a connection after the driver was started, the calls of `esp_wifi_connect` and the retries that
-- are left sum to the same number: an address that is got does not fill the retries up.
pub run_events-budget :
    (max_retry : ℕ) (es : List WifiEvent) (w : Wifi)
    → NoStart es
    → (run_events max_retry es w).connects + (run_events max_retry es w).s_wifi_retry_num
      ≡ w.connects + w.s_wifi_retry_num
unfolding run_events
run_events-budget max_retry [] w plain = refl
run_events-budget max_retry (sta_start ∷ es) w plain = absurd plain
run_events-budget max_retry (sta_disconnected ∷ es) w plain =
    run_events-budget max_retry es (wifi_event_handler max_retry sta_disconnected w) plain
    ∙ disconnected-same max_retry w
run_events-budget max_retry (got_ip ∷ es) w plain =
    run_events-budget max_retry es (wifi_event_handler max_retry got_ip w) plain
run_events-budget max_retry (other_event ∷ es) w plain = run_events-budget max_retry es w plain

-- What the handler leaves: connected, with the event of a connection; or not connected, with the event of a failure.
abbrev pub IsOutcome : Node → Node → Type 0
IsOutcome n n' =
    ((n'.wifi_connected ≡ true)
      × (n'.sys_events ≡ wifi_connected ∷ wifi_disconnected ∷ without_wifi_fail n.sys_events))
    ⊎ ((n'.wifi_connected ≡ false) × (n'.sys_events ≡ wifi_fail ∷ wifi_disconnected ∷ n.sys_events))

connected-IsOutcome :
    (max_retry : ℕ) (es : List WifiEvent) (w w' : Wifi) (n : Node) (t : Bool)
    → wait_bits max_retry (sta_start ∷ es) (record w { connected_bit = false; fail_bit = false })
      ≡ some w'
    → w'.connected_bit ≡ t
    → (n' : Node) × (sys_wifi_reconnect_event_handler max_retry (sta_start ∷ es) w n
        ≡ some (w', n'))
      × (n'.task_wifi_reconnect ≡ false)
      × IsOutcome n n'
unfolding sys_wifi_reconnect_event_handler sys_wifi_try_connect sys_wifi_try_disconnect
    report_attempt clear_wifi_reconnect without_wifi_fail
connected-IsOutcome max_retry es w w' n true e b = rw e (rw b (_, refl, refl, inl (refl, refl)))
connected-IsOutcome max_retry es w w' n false e b = rw e (rw b (_, refl, refl, inr (refl, refl)))

-- The handler of a reconnection returns, when the driver, started, reports more often than there are retries: it calls
-- `esp_wifi_connect` at most once more than that, the bit of its task is cleared, and the node is connected and says
-- so, or is not and says that.
pub reconnect-returns :
    (max_retry : ℕ) (es : List WifiEvent) (w : Wifi) (n : Node)
    → NoStart es
    → max_retry < reports es
    → (w' : Wifi) × (n' : Node) × (sys_wifi_reconnect_event_handler max_retry (sta_start ∷ es) w n
        ≡ some (w', n'))
      × (n'.task_wifi_reconnect ≡ false)
      × (w'.connects ≤ w.connects + 1 + max_retry)
      × IsOutcome n n'
unfolding wait_bits wifi_event_handler
reconnect-returns max_retry es w n plain enough =
    let ended =
      wait_bits-ends max_retry es
        (record w {
          connected_bit = false;
          fail_bit = false;
          connects = w.connects + 1;
          s_wifi_retry_num = max_retry;
        })
        plain (inr enough) in
    let after = connected-IsOutcome max_retry es w ended.0 n ended.0.connected_bit ended.1 refl in
    (ended.0, after.0, after.1, after.2, ended.3, after.3)
