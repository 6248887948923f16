-- ===== src/Blink/Timer.antt =====
-- The timer of the LED patterns of components/blink/blink.c.
use rfmarkit_esp_node.Base.{ℕ, Bool, true, false, ◌≡◌, refl, sym, List, [], ◌∷◌, if◌then◌else◌}
use rfmarkit_esp_node.Blink.{
  Blink, LedStatus, Selected, fast_flash_pattern, fast_breath_pattern, slow_breath_pattern,
  seq_enc_pattern, Call, timer_stop, timer_start_periodic, ledc_set_freq, led_fast_flash,
  led_fast_breath, led_slow_breath, led_seq_enc, shows_pattern, is_on_or_off, call, stop_timer,
  set_freq, start_pattern, blink_led_off, blink_led_on, blink_led_set_duty, blink_led_fast_flash,
  blink_led_start_fast_breath_pattern, blink_led_start_slow_breath_pattern,
  blink_start_seq_enc_pattern,
}

-- Whether the timer runs after these calls, the latest first.
unfoldable pub timer_runs : List Call → Bool
timer_runs [] = false
timer_runs (timer_stop ∷ cs) = false
timer_runs (timer_start_periodic p ∷ cs) = true
timer_runs (c ∷ cs) = timer_runs cs

-- Every start meets a stopped timer, every stop a running one.
unfoldable pub IsPaired : List Call → Type 0
IsPaired [] = Unit {0}
IsPaired (timer_stop ∷ cs) = (timer_runs cs ≡ true) × IsPaired cs
IsPaired (timer_start_periodic p ∷ cs) = (timer_runs cs ≡ false) × IsPaired cs
IsPaired (c ∷ cs) = IsPaired cs

-- The timer runs exactly while the status shows a pattern.
pub record InStep (b : Blink) : Type 0 where
  pub runs : timer_runs b.calls ≡ shows_pattern b.led_status
  pub paired : IsPaired b.calls

-- The timer is stopped and its calls were paired.
record Stopped (b : Blink) : Type 0 where
  stopped : timer_runs b.calls ≡ false
  paired : IsPaired b.calls

Stopped-if :
    (t : Bool) (b : Blink)
    → timer_runs b.calls ≡ t
    → IsPaired b.calls
    → Stopped (if t then call timer_stop b else b)
unfolding call timer_runs IsPaired
Stopped-if true b runs paired = record { stopped = refl; paired = (runs, paired) }
Stopped-if false b runs paired = record { stopped = runs; paired = paired }

stop_timer-Stopped : (b : Blink) → InStep b → Stopped (stop_timer b)
unfolding stop_timer
stop_timer-Stopped b h = Stopped-if (shows_pattern b.led_status) b h.runs h.paired

freq_if :
    (t : Bool) (b : Blink) → Stopped b → Stopped (if t then call (ledc_set_freq 4000) b else b)
unfolding call timer_runs IsPaired
freq_if true b h = record { stopped = h.stopped; paired = h.paired }
freq_if false b h = h

set_freq-Stopped : (b : Blink) → Stopped b → Stopped (set_freq b)
unfolding set_freq
set_freq-Stopped b h = freq_if (is_on_or_off b.led_status) b h

select-Stopped :
    (p : Selected) (b : Blink) → Stopped b → Stopped (record b { selected_pattern = p })
select-Stopped p b h = record { stopped = h.stopped; paired = h.paired }

start_pattern-InStep :
    (p : Selected) (period : ℕ) (status : LedStatus) (b : Blink)
    → shows_pattern status ≡ true
    → InStep b
    → InStep (start_pattern p period status b)
unfolding start_pattern call timer_runs IsPaired
start_pattern-InStep p period status b shows h =
    let s =
      set_freq-Stopped (record (stop_timer b) { selected_pattern = p })
        (select-Stopped p (stop_timer b) (stop_timer-Stopped b h)) in
    record { runs = sym shows; paired = (s.stopped, s.paired) }

pub blink_led_off-InStep : (b : Blink) → InStep b → InStep (blink_led_off b)
unfolding blink_led_off call timer_runs IsPaired shows_pattern
blink_led_off-InStep b h =
    let s = stop_timer-Stopped b h in record { runs = s.stopped; paired = s.paired }

pub blink_led_on-InStep : (b : Blink) → InStep b → InStep (blink_led_on b)
unfolding blink_led_on call timer_runs IsPaired shows_pattern
blink_led_on-InStep b h =
    let s = stop_timer-Stopped b h in record { runs = s.stopped; paired = s.paired }

pub blink_led_set_duty-InStep :
    (duty : ℕ) (b : Blink) → InStep b → InStep (blink_led_set_duty duty b)
unfolding blink_led_set_duty call timer_runs IsPaired shows_pattern
blink_led_set_duty-InStep duty b h =
    let s = set_freq-Stopped (stop_timer b) (stop_timer-Stopped b h) in
    record { runs = s.stopped; paired = s.paired }

kept_if : (t : Bool) (b b' : Blink) → InStep b → InStep b' → InStep (if t then b else b')
kept_if true b b' h h' = h
kept_if false b b' h h' = h'

module _ (b : Blink) (h : InStep b) where
  pub blink_led_fast_flash-InStep : InStep (blink_led_fast_flash b)
  unfolding blink_led_fast_flash shows_pattern
  blink_led_fast_flash-InStep =
      kept_if _ b _ h (start_pattern-InStep fast_flash_pattern 50000 led_fast_flash b refl h)

  pub blink_led_start_fast_breath_pattern-InStep : InStep (blink_led_start_fast_breath_pattern b)
  unfolding blink_led_start_fast_breath_pattern shows_pattern
  blink_led_start_fast_breath_pattern-InStep =
      kept_if _ b _ h (start_pattern-InStep fast_breath_pattern 50000 led_fast_breath b refl h)

  pub blink_led_start_slow_breath_pattern-InStep : InStep (blink_led_start_slow_breath_pattern b)
  unfolding blink_led_start_slow_breath_pattern shows_pattern
  blink_led_start_slow_breath_pattern-InStep =
      kept_if _ b _ h (start_pattern-InStep slow_breath_pattern 200000 led_slow_breath b refl h)

  pub blink_start_seq_enc_pattern-InStep : InStep (blink_start_seq_enc_pattern b)
  unfolding blink_start_seq_enc_pattern shows_pattern
  blink_start_seq_enc_pattern-InStep =
      kept_if _ b _ h (start_pattern-InStep seq_enc_pattern 50000 led_seq_enc b refl h)
