-- ===== src/Hi229/Crc/Reference.antt =====
-- CRC-16 with the polynomial 0x1021 on a register of 16 bits, and the code's 32-bit loops against it.
use rfmarkit_esp_node.Base.{
  ℕ, zero, suc, ◌*◌, ◌%◌, ◌^◌, ◌<◌, ◌≡◌, refl, ap, ◌∙◌, arith, bit_and, bit_xor, not, ◌==◌, leb,
  if◌then◌else◌, List, [], ◌∷◌,
}
use rfmarkit_esp_node.Base.Bits.{bit_xor-mod, bit_and-pow}
use rfmarkit_esp_node.Hi229.Crc.{crc_round, crc_rounds, crc_bytes, crc16_update}

abbrev pub AllBytes : List ℕ → Type 0
AllBytes [] = Unit {0}
AllBytes (x ∷ xs) = (x < 256) × AllBytes xs

-- Shift the register left; the polynomial is added if a digit falls out.
abbrev pub shift_out : ℕ → ℕ
shift_out c = if leb 0x8000 c then bit_xor (c * 2 % 65536) 0x1021 else c * 2 % 65536

unfoldable pub rounds : ℕ → ℕ → ℕ
rounds zero c = c
rounds (suc n) c = rounds n (shift_out c)

unfoldable pub crc16 : ℕ → List ℕ → ℕ
crc16 c [] = c
crc16 c (x ∷ xs) = crc16 (rounds 8 (bit_xor c (x * 256))) xs

top_bit : (c : ℕ) → (bit_and c 0x8000 == 0) ≡ not (leb 0x8000 (c % 65536))
top_bit c = ground (arith, bit_and-pow 15 c)

cut_xor : (a b : ℕ) → bit_xor a b % 65536 ≡ bit_xor (a % 65536) (b % 65536)
cut_xor a b = bit_xor-mod 16 a b

doubled : (c : ℕ) → c * 2 % 2 ^ 32 % 65536 ≡ c % 65536 * 2 % 65536
doubled c = omega arith

crc_round-mod : (c : ℕ) → crc_round c % 65536 ≡ shift_out (c % 65536)
unfolding crc_round
crc_round-mod c = ground (
  arith,
  top_bit c,
  cut_xor (c * 2 % 2 ^ 32) 0x1021,
  doubled c,
  ap (λ (t : ℕ). bit_xor t 0x1021) (doubled c),
)

crc_rounds-mod : (n c : ℕ) → crc_rounds n c % 65536 ≡ rounds n (c % 65536)
unfolding crc_rounds rounds
crc_rounds-mod zero c = refl
crc_rounds-mod (suc n) c = crc_rounds-mod n (crc_round c) ∙ ap (rounds n) (crc_round-mod c)

crc_bytes-mod : (c : ℕ) (xs : List ℕ) → AllBytes xs → crc_bytes c xs % 65536 ≡ crc16 (c % 65536) xs
unfolding crc_bytes crc16
crc_bytes-mod c [] h = refl
crc_bytes-mod c (x ∷ xs) h =
    crc_bytes-mod (crc_rounds 8 (bit_xor c (x * 2 ^ 8 % 2 ^ 32))) xs h.1
    ∙ ap (λ (t : ℕ). crc16 t xs)
        (crc_rounds-mod 8 (bit_xor c (x * 2 ^ 8 % 2 ^ 32))
          ∙ ap (rounds 8)
              (cut_xor c (x * 2 ^ 8 % 2 ^ 32) ∙ ap (bit_xor (c % 65536)) (omega (arith, h.0))))

-- The 32-bit loops compute the 16-bit CRC of any bytes, from any 16-bit start.
pub crc16_update-eq-crc16 :
    (c : ℕ) (xs : List ℕ) → c < 65536 → AllBytes xs → crc16_update c xs ≡ crc16 c xs
unfolding crc16_update
crc16_update-eq-crc16 c xs h bytes =
    crc_bytes-mod c xs bytes ∙ ap (λ (t : ℕ). crc16 t xs) (omega arith)
