-- ===== src/Blink.antt =====
-- components/blink/blink.c: the patterns and the driver of the LED. The LED peripheral, the GPIO and the
-- timer are outside the repository: the calls to them are recorded, the latest first.
mod Tests
pub mod Hamming
pub mod Pattern
pub mod Timer
pub mod Cycle
use rfmarkit_esp_node.Base.{
  ℕ, zero, suc, ◌+◌, ◌*◌, ◌/◌, ◌%◌, ◌^◌, Bool, true, false, ◌||◌, not, Option, none, some, List, [],
  ◌∷◌, length, get_elem?, leb, ◌==◌, if◌then◌else◌,
}
use rfmarkit_esp_node.Base.OptionDo.{◌>>=◌}

-- `led_status_enum`
pub data LedStatus : Type 0 where
  led_unknown led_off led_on led_duty led_fast_flash led_fast_breath led_slow_breath led_seq_enc :
      LedStatus

-- What `s_selected_pattern` points to.
pub data Selected : Type 0 where
  no_pattern seq_enc_pattern fast_breath_pattern slow_breath_pattern fast_flash_pattern : Selected

pub data Call : Type 0 where
  timer_stop : Call
  timer_start_periodic : ℕ → Call
  ledc_stop : ℕ → Call
  gpio_set_level : Bool → Call
  ledc_set_freq : ℕ → Call
  ledc_set_duty : ℕ → Call
  ledc_update_duty : Call

pub record Blink : Type 0 where
  pub led_status : LedStatus
  pub selected_pattern : Selected
  pub blink_idx : ℕ
  pub s_seq_enc_pattern : List ℕ
  pub en_val : Bool
  pub calls : List Call

-- The value of a status.
unfoldable pub number : LedStatus → ℕ
number led_unknown = 0
number led_off = 1
number led_on = 2
number led_duty = 3
number led_fast_flash = 4
number led_fast_breath = 5
number led_slow_breath = 6
number led_seq_enc = 7

-- The statuses in which a pattern is shown.
unfoldable pub shows_pattern : LedStatus → Bool
shows_pattern led_fast_flash = true
shows_pattern led_fast_breath = true
shows_pattern led_slow_breath = true
shows_pattern led_seq_enc = true
shows_pattern _ = false

unfoldable pub is_on_or_off : LedStatus → Bool
is_on_or_off led_on = true
is_on_or_off led_off = true
is_on_or_off _ = false

unfoldable pub call : Call → Blink → Blink
call c b = record b { calls = c ∷ b.calls }

-- The stop of the timer before the LED leaves a pattern.
unfoldable pub stop_timer : Blink → Blink
unfolding shows_pattern call
stop_timer b = if shows_pattern b.led_status then call timer_stop b else b

-- The frequency is set when the LED comes from a constant level.
unfoldable pub set_freq : Blink → Blink
unfolding is_on_or_off call
set_freq b = if is_on_or_off b.led_status then call (ledc_set_freq 4000) b else b

-- `blink_led_off`
unfoldable pub blink_led_off : Blink → Blink
unfolding stop_timer call
blink_led_off b =
    record (call (gpio_set_level (not b.en_val)) (call (ledc_stop 0) (stop_timer b))) {
      led_status = led_off;
    }

-- `blink_led_on`
unfoldable pub blink_led_on : Blink → Blink
unfolding stop_timer call
blink_led_on b = record (call (gpio_set_level b.en_val) (call (ledc_stop 1) (stop_timer b))) {
  led_status = led_on;
}

-- `blink_led_set_duty`; the product is computed in 32 bits
unfoldable pub blink_led_set_duty : ℕ → Blink → Blink
unfolding stop_timer set_freq call
blink_led_set_duty duty b =
    record (call ledc_update_duty
      (call (ledc_set_duty (4000 * duty % 2 ^ 32 / 100)) (set_freq (stop_timer b)))) {
        led_status = led_duty;
      }

-- The end of the functions that start a pattern.
unfoldable pub start_pattern : Selected → ℕ → LedStatus → Blink → Blink
unfolding stop_timer set_freq call
start_pattern p period status b =
    record (call (timer_start_periodic period)
      (set_freq (record (stop_timer b) { selected_pattern = p }))) { led_status = status }

-- `blink_led_fast_flash`
unfoldable pub blink_led_fast_flash : Blink → Blink
unfolding number start_pattern
blink_led_fast_flash b =
    if number b.led_status == number led_fast_flash
    then b
    else start_pattern fast_flash_pattern 50000 led_fast_flash b

-- `blink_led_start_fast_breath_pattern`
unfoldable pub blink_led_start_fast_breath_pattern : Blink → Blink
unfolding number start_pattern
blink_led_start_fast_breath_pattern b =
    if number b.led_status == number led_fast_breath
    then b
    else start_pattern fast_breath_pattern 50000 led_fast_breath b

-- `blink_led_start_slow_breath_pattern`
unfoldable pub blink_led_start_slow_breath_pattern : Blink → Blink
unfolding number start_pattern
blink_led_start_slow_breath_pattern b =
    if number b.led_status == number led_slow_breath
    then b
    else start_pattern slow_breath_pattern 200000 led_slow_breath b

-- `blink_start_seq_enc_pattern`
unfoldable pub blink_start_seq_enc_pattern : Blink → Blink
unfolding number start_pattern
blink_start_seq_enc_pattern b =
    if number b.led_status == number led_seq_enc
    then b
    else start_pattern seq_enc_pattern 50000 led_seq_enc b

-- The bytes of the pattern that is pointed to.
unfoldable pub pattern_bytes : Blink → List ℕ
pattern_bytes b = elim b.selected_pattern [
  | no_pattern ↦ []
  | seq_enc_pattern ↦ b.s_seq_enc_pattern
  | fast_breath_pattern ↦
      0 ∷ 32 ∷ 64 ∷ 96 ∷ 128 ∷ 160 ∷ 192 ∷ 224 ∷ 255 ∷ 224 ∷ 192 ∷ 160 ∷ 128 ∷ 96 ∷ 64 ∷ 32 ∷ []
  | slow_breath_pattern ↦ 0 ∷ 0 ∷ 0 ∷ 0 ∷ 0 ∷ 0 ∷ 0 ∷ 0 ∷ 0 ∷ 0 ∷ 0 ∷ 0 ∷ 0 ∷ 0 ∷ 255 ∷ 255 ∷ []
  | fast_flash_pattern ↦
      0 ∷ 255 ∷ 0 ∷ 255 ∷ 0 ∷ 255 ∷ 0 ∷ 255 ∷ 0 ∷ 255 ∷ 0 ∷ 255 ∷ 0 ∷ 255 ∷ 0 ∷ 255 ∷ []
]

-- The index that `blink_timeout` reads.
unfoldable pub wrapped_idx : Blink → ℕ
unfolding pattern_bytes
wrapped_idx b = if leb (length (pattern_bytes b)) b.blink_idx then 0 else b.blink_idx

-- The duty of a byte, and the step of the index.
unfoldable pub shown : ℕ → Blink → Blink
unfolding wrapped_idx call
shown value b = record (call ledc_update_duty (call (ledc_set_duty (value * 4000 / 0x100)) b)) {
  blink_idx = wrapped_idx b + 1;
}

-- `blink_timeout`; a read past the pattern is undefined
unfoldable pub blink_timeout : Blink → Option Blink
unfolding wrapped_idx pattern_bytes shown
blink_timeout b = do value ← get_elem? (pattern_bytes b) (wrapped_idx b); some (shown value b)

-- `blink_timeout` n times.
unfoldable pub timeouts : ℕ → Blink → Option Blink
timeouts zero b = some b
timeouts (suc n) b = do b' ← blink_timeout b; timeouts n b'
