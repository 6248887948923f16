-- ===== src/Blink/Tests.antt =====
-- The theorems on components/blink/blink.c and components/sys/led_status.c at concrete states.
use rfmarkit_esp_node.Base.{
  ℕ, ◌+◌, ◌*◌, ◌<◌, ◌≤◌, ◌≡◌, refl, arith, true, List, [], if◌then◌else◌, replicate, length, get_or,
  ◌==◌,
}
use rfmarkit_esp_node.Blink.{Blink, led_unknown, no_pattern}
use rfmarkit_esp_node.Blink.Hamming.{
  fill_u8_hamming, buffer_of, data_of, syndrome, data_of-fill_u8_hamming, syndrome-fill_u8_hamming,
}
use rfmarkit_esp_node.Blink.Pattern.{PairOf, blink_prepare_pattern, blink_prepare_pattern-Coded}
use rfmarkit_esp_node.LedStatus.{McuState}

abbrev at_boot : Blink
at_boot = record {
  led_status = led_unknown;
  selected_pattern = no_pattern;
  blink_idx = 0;
  s_seq_enc_pattern = replicate 28 0;
  en_val = true;
  calls = [];
}

abbrev connected : McuState
connected = record {
  wifi_connected = true;
  ntp_synced = true;
  discovery_completed = true;
  active = true;
}

data_of-fill_u8_hamming_example : data_of (fill_u8_hamming (buffer_of (λ i. i)) 181) ≡ 181
data_of-fill_u8_hamming_example = data_of-fill_u8_hamming (λ i. i) 181 (omega arith)

-- Where the buffer held 0, 1, 3 and 7 at the parity places, three checks fail.
syndrome-fill_u8_hamming_example : syndrome (fill_u8_hamming (buffer_of (λ i. i)) 181) ≡ 14
syndrome-fill_u8_hamming_example = syndrome-fill_u8_hamming (λ i. i) 181

-- The pattern of the sequence number 181.
abbrev pattern_181 : List ℕ
pattern_181 = (blink_prepare_pattern (replicate 12 0) 181 at_boot).s_seq_enc_pattern

abbrev word_181 : List ℕ
word_181 = fill_u8_hamming (replicate 12 0) 181

blink_prepare_pattern-Coded_example :
    (length pattern_181 ≡ 28)
    × ((get_or pattern_181 0 0 ≡ 255) × (get_or pattern_181 1 0 ≡ 255))
    × ((k : ℕ)
        → k ≤ 12
        → PairOf (get_or pattern_181 (2 + k * 2) 0) (get_or pattern_181 (2 + k * 2 + 1) 0))
    × ((k : ℕ)
        → k < 12
        → (get_or pattern_181 (4 + k * 2) 0 ≡ (
            if get_or word_181 k 0 == 0
            then get_or pattern_181 (2 + k * 2) 0
            else get_or pattern_181 (2 + k * 2 + 1) 0))
          × (get_or pattern_181 (4 + k * 2 + 1) 0 ≡ (
              if get_or word_181 k 0 == 0
              then get_or pattern_181 (2 + k * 2 + 1) 0
              else get_or pattern_181 (2 + k * 2) 0)))
blink_prepare_pattern-Coded_example = blink_prepare_pattern-Coded (replicate 12 0) 181 at_boot refl
