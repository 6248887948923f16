-- ===== src/Blink/Hamming.antt =====
-- `get_bit_from_byte_array` and `fill_u8_hamming` of components/blink/blink.c: the bits of the sequence
-- number with four parity bits.
use rfmarkit_esp_node.Base.{
  ℕ, ◌+◌, ◌-◌, ◌*◌, ◌/◌, ◌%◌, ◌^◌, ◌<◌, ◌≡◌, ap, ◌∙◌, arith, bit_and, List, [], ◌∷◌, get_or, set,
  ◌==◌, if◌then◌else◌,
}
use native.Mathlib.Nat.{mul-div_cancel, one-le-pow}
use rfmarkit_esp_node.Base.Bits.{bit_and-pow}

-- `get_bit_from_byte_array`
unfoldable pub get_bit_from_byte_array : List ℕ → ℕ → ℕ
get_bit_from_byte_array arr index =
    bit_and (get_or arr (index / 8) 0) (2 ^ (index % 8)) / 2 ^ (index % 8)

abbrev pub hamming_idx : List ℕ
hamming_idx = 2 ∷ 4 ∷ 5 ∷ 6 ∷ 8 ∷ 9 ∷ 10 ∷ 11 ∷ []

-- The loop that places the data bits.
unfoldable pub fill_data : List ℕ → ℕ → List ℕ → ℕ → List ℕ
unfolding get_bit_from_byte_array
fill_data send_buf seq [] idx = send_buf
fill_data send_buf seq (at ∷ ats) idx =
    fill_data (set send_buf at (get_bit_from_byte_array (seq ∷ []) (7 - idx))) seq ats (idx + 1)

unfoldable pub sum_at : List ℕ → List ℕ → ℕ
sum_at send_buf [] = 0
sum_at send_buf (at ∷ ats) = get_or send_buf at 0 + sum_at send_buf ats

-- One parity assignment: the sum includes the bit that is assigned.
unfoldable pub set_parity : List ℕ → ℕ → List ℕ → List ℕ
unfolding sum_at
set_parity send_buf at ats = set send_buf at (if sum_at send_buf (at ∷ ats) % 2 == 0 then 0 else 1)

abbrev pub group_0 : List ℕ
group_0 = 2 ∷ 4 ∷ 6 ∷ 8 ∷ 10 ∷ []

abbrev pub group_1 : List ℕ
group_1 = 2 ∷ 5 ∷ 6 ∷ 9 ∷ 10 ∷ []

abbrev pub group_3 : List ℕ
group_3 = 4 ∷ 5 ∷ 6 ∷ 11 ∷ []

abbrev pub group_7 : List ℕ
group_7 = 8 ∷ 9 ∷ 10 ∷ 11 ∷ []

-- `fill_u8_hamming`
unfoldable pub fill_u8_hamming : List ℕ → ℕ → List ℕ
unfolding fill_data set_parity
fill_u8_hamming send_buf seq =
    let filled = fill_data send_buf seq hamming_idx 0 in
    set_parity (set_parity (set_parity (set_parity filled 0 group_0) 1 group_1) 3 group_3) 7 group_7

-- The four parity checks of a received word, as the digits of one number.
unfoldable pub syndrome : List ℕ → ℕ
unfolding sum_at
syndrome w =
    sum_at w (0 ∷ group_0) % 2
    + sum_at w (1 ∷ group_1) % 2 * 2
    + sum_at w (3 ∷ group_3) % 2 * 4
    + sum_at w (7 ∷ group_7) % 2 * 8

-- The number that the data bits spell.
unfoldable pub data_of : List ℕ → ℕ
data_of w =
    get_or w 2 0 * 128
    + get_or w 4 0 * 64
    + get_or w 5 0 * 32
    + get_or w 6 0 * 16
    + get_or w 8 0 * 8
    + get_or w 9 0 * 4
    + get_or w 10 0 * 2
    + get_or w 11 0

-- A buffer of 12 bytes with any contents.
unfoldable pub buffer_of : (ℕ → ℕ) → List ℕ
buffer_of f = f 0 ∷ f 1 ∷ f 2 ∷ f 3 ∷ f 4 ∷ f 5 ∷ f 6 ∷ f 7 ∷ f 8 ∷ f 9 ∷ f 10 ∷ f 11 ∷ []

bit_value : (a k : ℕ) → bit_and a (2 ^ k) / 2 ^ k ≡ (a / 2 ^ k) % 2
bit_value a k =
    ap (λ (t : ℕ). t / 2 ^ k) (bit_and-pow k a)
    ∙ mul-div_cancel (a / 2 ^ k % 2) (one-le-pow k 2 (omega arith))

-- The data bits of the code word spell the sequence number, whatever stood in the buffer.
pub data_of-fill_u8_hamming :
    (f : ℕ → ℕ) (seq : ℕ) → seq < 256 → data_of (fill_u8_hamming (buffer_of f) seq) ≡ seq
unfolding fill_u8_hamming data_of buffer_of
data_of-fill_u8_hamming f seq h = omega (
  arith,
  bit_value seq 0,
  bit_value seq 1,
  bit_value seq 2,
  bit_value seq 3,
  bit_value seq 4,
  bit_value seq 5,
  bit_value seq 6,
  bit_value seq 7,
)

fresh_parity : (x r : ℕ) → ((if (x + r) % 2 == 0 then 0 else 1) + r) % 2 ≡ x % 2
fresh_parity x r = ground arith

-- The parity checks of the code word come out as the bits that stood at the four parity places before.
pub syndrome-fill_u8_hamming :
    (f : ℕ → ℕ) (seq : ℕ)
    → syndrome (fill_u8_hamming (buffer_of f) seq)
      ≡ f 0 % 2 + f 1 % 2 * 2 + f 3 % 2 * 4 + f 7 % 2 * 8
unfolding fill_u8_hamming syndrome buffer_of sum_at fill_data
syndrome-fill_u8_hamming f seq = λ i.
    fresh_parity (f 0) (sum_at bits group_0) i
    + fresh_parity (f 1) (sum_at bits group_1) i * 2
    + fresh_parity (f 3) (sum_at bits group_3) i * 4
    + fresh_parity (f 7) (sum_at bits group_7) i * 8
  where
    bits : List ℕ
    bits = fill_data (buffer_of f) seq hamming_idx 0
