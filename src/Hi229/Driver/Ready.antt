-- ===== src/Hi229/Driver/Ready.antt =====
-- lib/hi229/hi229.c: the self test against a count of the sync bytes, and the polling against the stream of statuses.
use rfmarkit_esp_node.Base.{
  ℕ, zero, suc, ◌+◌, ◌≤◌, ◌<◌, ◌≡◌, ◌↔◌, refl, arith, Bool, true, false, ◌&&◌, ◌||◌, some, List, [],
  ◌∷◌, length, get_or, ltb, ◌==◌, if◌then◌else◌,
}
use Prim.{tt}
use native.Mathlib.Decide.{dec_lt, dec_le}
use rfmarkit_esp_node.Base.Outcome.{Outcome, done, undefined, out_of_fuel, ◌>>=◌}
use rfmarkit_esp_node.Esp.{EspErr, ok, fail, is_ok}
use rfmarkit_esp_node.Node.{imu_status_fail, imu_status_ready}
use rfmarkit_esp_node.Hi229.Raw.{FloatOps, Raw}
use rfmarkit_esp_node.Hi229.Input.{Status, message, no_message, error, ch_serial_input, feed}
use rfmarkit_esp_node.Hi229.Driver.{
  Hi229, is_message, call, take_message, find_sync, tested, hi229_self_test, poll_byte, poll,
  uart_flush,
}

-- How often the two sync bytes stand next to each other, from an index on.
unfoldable pub pairs : List ℕ → (idx left : ℕ) → ℕ
pairs bytes idx zero = 0
pairs bytes idx (suc left) =
    (if (get_or bytes idx 0 == 0x5a) && (get_or bytes (idx + 1) 0 == 0xa5) then 1 else 0)
    + pairs bytes (idx + 1) left

-- A sum that stops at 4.
abbrev pub up_to_4 : ℕ → ℕ
up_to_4 n = if ltb n 4 then n else 4

find_sync-pairs :
    (bytes : List ℕ) (len idx left cursor : ℕ)
    → idx + left < length bytes
    → cursor ≤ 4
    → find_sync bytes len idx left cursor ≡ some (up_to_4 (cursor + pairs bytes idx left))
unfolding find_sync pairs
find_sync-pairs bytes len idx zero cursor room few = ground arith
find_sync-pairs bytes len idx (suc left) cursor room few = elim (dec_lt cursor 4) [
  | yes below ↦ ground (
    arith,
    find_sync-pairs bytes len (idx + 1) left cursor (omega arith) few,
    find_sync-pairs bytes len (idx + 1) left (cursor + 1) (omega arith) (omega arith),
  )
  | no full ↦ ground (arith, find_sync-pairs bytes len (idx + 1) left cursor (omega arith) few)
]

module _ {F : Type 0} where
  -- The self test of fewer bytes than the buffer has: the sensor is ready, and the code says so, exactly where the two
  -- sync bytes stand next to each other four times or more.
  hi229_self_test-pairs :
      (bytes : List ℕ) (len : ℕ) (p : Hi229 F)
      → len < length bytes
      → (err : EspErr) × (p' : Hi229 F) × (hi229_self_test bytes len p ≡ some (err, p'))
        × ((is_ok err ≡ true) ↔ (4 ≤ pairs bytes 0 len))
        × (p'.status ≡ (if is_ok err then imu_status_ready else imu_status_fail))
  unfolding hi229_self_test tested
  hi229_self_test-pairs bytes len p room =
      rw (find_sync-pairs bytes len 0 len 0 (omega arith) (omega arith))
        (by_count (dec_le 4 (pairs bytes 0 len)))
    where
      by_count :
          Dec (4 ≤ pairs bytes 0 len)
          → (err : EspErr) × (p' : Hi229 F) × (tested
                (some (up_to_4 (0 + pairs bytes 0 len)))
                (call uart_flush p)
              ≡ some (err, p'))
            × ((is_ok err ≡ true) ↔ (4 ≤ pairs bytes 0 len))
            × (p'.status ≡ (if is_ok err then imu_status_ready else imu_status_fail))
      by_count (yes many) = (
        ok,
        record (call uart_flush p) { status = imu_status_ready },
        ground arith,
        (λ e. many, λ h. refl),
        refl,
      )
      by_count (no few) = (
        fail,
        record (call uart_flush p) { status = imu_status_fail },
        ground arith,
        (λ e. absurd cc, λ h. absurd (few h)),
        refl,
      )

or_true : (t : Bool) → (t || true) ≡ true
or_true true = refl
or_true false = refl

or_false : (t : Bool) → (t || false) ≡ t
or_false true = refl
or_false false = refl

unfoldable pub any_message : List Status → Bool
unfolding is_message
any_message [] = false
any_message (s ∷ ss) = is_message s || any_message ss

module _ {F : Type 0} (fl : FloatOps F) where
  -- The two results are of one kind; where both are defined, the state of the protocol is the same, and a reading is
  -- ready if one was before, or if a message was completed.
  abbrev pub Agrees : Bool → Outcome (Hi229 F) → Outcome (List Status × Raw F) → Type 0
  Agrees before (done p) (done (statuses, raw)) =
      (p.raw ≡ raw) × (p.data_ready ≡ (before || any_message statuses))
  Agrees before (done p) undefined = ⊥
  Agrees before (done p) out_of_fuel = ⊥
  Agrees before undefined (done r) = ⊥
  Agrees before undefined undefined = Unit {0}
  Agrees before undefined out_of_fuel = ⊥
  Agrees before out_of_fuel (done r) = ⊥
  Agrees before out_of_fuel undefined = ⊥
  Agrees before out_of_fuel out_of_fuel = Unit {0}

  Agrees-with_more :
      (before : Bool) (s : Status) (o : Outcome (Hi229 F)) (q : Outcome (List Status × Raw F))
      → Agrees (before || is_message s) o q
      → Agrees before o (q >>= λ (r : List Status × Raw F). done (s ∷ r.0, r.1))
  unfolding any_message
  Agrees-with_more before s (done p) (done (statuses, raw)) h = (h.0, ground (arith, h.1))
  Agrees-with_more before s undefined undefined h = h
  Agrees-with_more before s out_of_fuel out_of_fuel h = h
  Agrees-with_more before s (done p) undefined h = absurd h
  Agrees-with_more before s (done p) out_of_fuel h = absurd h
  Agrees-with_more before s undefined (done r) h = absurd h
  Agrees-with_more before s undefined out_of_fuel h = absurd h
  Agrees-with_more before s out_of_fuel (done r) h = absurd h
  Agrees-with_more before s out_of_fuel undefined h = absurd h

  after_byte :
      (now : ℕ) (xs : List ℕ)
      → ((p : Hi229 F) → Agrees p.data_ready (poll fl now p xs) (feed fl p.raw xs true))
      → (p : Hi229 F) (o : Outcome (Status × Raw F))
      → Agrees p.data_ready
          ((o >>= λ (r : Status × Raw F). done (
              if is_message r.0
              then take_message now (record p { raw = r.1 })
              else record p { raw = r.1 }))
            >>= λ (p' : Hi229 F). poll fl now p' xs)
          (o >>= λ (r : Status × Raw F).
            (feed fl r.1 xs true >>= λ (q : List Status × Raw F). done (r.0 ∷ q.0, q.1)))
  unfolding is_message take_message
  after_byte now xs ih p (done (message, raw)) =
      Agrees-with_more p.data_ready message _ _
        (rw (or_true p.data_ready) (ih (take_message now (record p { raw = raw }))))
  after_byte now xs ih p (done (no_message, raw)) =
      Agrees-with_more p.data_ready no_message _ _
        (rw (or_false p.data_ready) (ih (record p { raw = raw })))
  after_byte now xs ih p (done (error, raw)) =
      Agrees-with_more p.data_ready error _ _
        (rw (or_false p.data_ready) (ih (record p { raw = raw })))
  after_byte now xs ih p undefined = tt
  after_byte now xs ih p out_of_fuel = tt

  -- The task that polls takes the bytes as the protocol does: both are undefined or both are not, the state of the
  -- protocol after the bytes is the same, and a reading is ready afterwards if one was before, or if a message was
  -- completed.
  poll-feed :
      (now : ℕ) (xs : List ℕ) (p : Hi229 F)
      → Agrees p.data_ready (poll fl now p xs) (feed fl p.raw xs true)
  unfolding feed poll poll_byte any_message
  poll-feed now [] p = (refl, ground arith)
  poll-feed now (x ∷ xs) p =
      after_byte now xs (poll-feed now xs) p (ch_serial_input fl p.raw x true)
