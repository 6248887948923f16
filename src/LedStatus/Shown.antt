-- ===== src/LedStatus/Shown.antt =====
-- `sys_led_status_handler` of components/sys/led_status.c: the status of the LED and the timer after it.
use rfmarkit_esp_node.Base.{ℕ, Bool, true, false, ◌≡◌, refl, if◌then◌else◌, ==_iff}
use rfmarkit_esp_node.Esp.{ok}
use rfmarkit_esp_node.Blink.{
  Blink, LedStatus, led_unknown, led_off, led_on, led_duty, led_fast_flash, led_fast_breath,
  led_slow_breath, led_seq_enc, number, blink_led_off, blink_led_on, blink_led_fast_flash,
  blink_led_start_fast_breath_pattern, blink_led_start_slow_breath_pattern,
  blink_start_seq_enc_pattern, start_pattern,
}
use rfmarkit_esp_node.Blink.Timer.{
  InStep, blink_led_off-InStep, blink_led_on-InStep, blink_led_fast_flash-InStep,
  blink_led_start_fast_breath_pattern-InStep, blink_led_start_slow_breath_pattern-InStep,
  blink_start_seq_enc_pattern-InStep,
}
use rfmarkit_esp_node.LedStatus.{sys_set_led_status}

-- Whatever status is asked for, the timer runs afterwards exactly while a pattern is shown, and it was
-- never started while it ran or stopped while it stood.
pub sys_set_led_status-InStep :
    (target : LedStatus) (b : Blink) → InStep b → InStep (sys_set_led_status target b).1
unfolding sys_set_led_status
sys_set_led_status-InStep led_on b h = blink_led_on-InStep b h
sys_set_led_status-InStep led_off b h = blink_led_off-InStep b h
sys_set_led_status-InStep led_fast_flash b h = blink_led_fast_flash-InStep b h
sys_set_led_status-InStep led_fast_breath b h = blink_led_start_fast_breath_pattern-InStep b h
sys_set_led_status-InStep led_slow_breath b h = blink_led_start_slow_breath_pattern-InStep b h
sys_set_led_status-InStep led_seq_enc b h = blink_start_seq_enc_pattern-InStep b h
sys_set_led_status-InStep led_unknown b h = h
sys_set_led_status-InStep led_duty b h = h

shown_if :
    (t : Bool) (n : ℕ) (b b' : Blink)
    → (t ≡ true → number b.led_status ≡ n)
    → number b'.led_status ≡ n
    → number (if t then b else b').led_status ≡ n
shown_if true n b b' same new = same refl
shown_if false n b b' same new = new

-- The numbers of the statuses that can be asked for are those set.
pub sys_set_led_status-number :
    (target : LedStatus) (b : Blink)
    → (sys_set_led_status target b).0 ≡ ok
    → number (sys_set_led_status target b).1.led_status ≡ number target
unfolding sys_set_led_status number blink_led_on blink_led_off blink_led_fast_flash
    blink_led_start_fast_breath_pattern blink_led_start_slow_breath_pattern
    blink_start_seq_enc_pattern start_pattern
sys_set_led_status-number led_on b h = refl
sys_set_led_status-number led_off b h = refl
sys_set_led_status-number led_fast_flash b h =
    shown_if _ 4 b _ (λ e. (==_iff (number b.led_status) 4).0 e) refl
sys_set_led_status-number led_fast_breath b h =
    shown_if _ 5 b _ (λ e. (==_iff (number b.led_status) 5).0 e) refl
sys_set_led_status-number led_slow_breath b h =
    shown_if _ 6 b _ (λ e. (==_iff (number b.led_status) 6).0 e) refl
sys_set_led_status-number led_seq_enc b h =
    shown_if _ 7 b _ (λ e. (==_iff (number b.led_status) 7).0 e) refl
sys_set_led_status-number led_unknown b h = absurd cc
sys_set_led_status-number led_duty b h = absurd cc

-- The number of the status that a state of the node calls for: fast flash (4) without Wi-Fi, fast breath (5) without the clock
-- or the discovery, on (2) in the active mode, and slow breath (6) else.
abbrev pub called_for : (wifi_connected ntp_synced discovery_completed active : Bool) → ℕ
called_for false ntp_synced discovery_completed active = 4
called_for true false discovery_completed active = 5
called_for true true false active = 5
called_for true true true true = 2
called_for true true true false = 6
