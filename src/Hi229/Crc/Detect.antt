-- ===== src/Hi229/Crc/Detect.antt =====
-- `crc16_update` of lib/hi229/hi229_serial.c on two byte strings that differ in one byte.
use rfmarkit_esp_node.Base.{
  ℕ, zero, suc, ◌*◌, ◌%◌, ◌<◌, ◌≡◌, ◌≢◌, sym, ap, ◌∙◌, arith, bit_xor, leb, if◌then◌else◌, List, [],
  ◌∷◌, ◌++◌,
}
use rfmarkit_esp_node.Base.Bits.{bit_xor-mod, bit_xor_step, bit_xor_cancel, bit_xor_comm}
use rfmarkit_esp_node.Hi229.Crc.{crc16_update}
use rfmarkit_esp_node.Hi229.Crc.Reference.{
  AllBytes, shift_out, rounds, crc16, crc16_update-eq-crc16,
}

pub bit_xor-lt : (a b : ℕ) → a < 65536 → b < 65536 → bit_xor a b < 65536
bit_xor-lt a b h k = omega (
  arith,
  bit_xor-mod 16 a b,
  ap (λ (t : ℕ). bit_xor t (b % 65536)) (cut a h),
  ap (bit_xor a) (cut b k),
)
  where
    cut : (n : ℕ) → n < 65536 → n % 65536 ≡ n
    cut n h = omega arith

shift_out-lt : (c : ℕ) → shift_out c < 65536
shift_out-lt c = ground (arith, bit_xor-lt (c * 2 % 65536) 0x1021 (omega arith) (omega arith))

bit_xor-injective_left : (a b k : ℕ) → bit_xor a k ≡ bit_xor b k → a ≡ b
bit_xor-injective_left a b k e =
    sym (bit_xor_cancel a k) ∙ ap (λ (t : ℕ). bit_xor t k) e ∙ bit_xor_cancel b k

bit_xor-injective_right : (k a b : ℕ) → bit_xor k a ≡ bit_xor k b → a ≡ b
bit_xor-injective_right k a b e =
    bit_xor-injective_left a b k (bit_xor_comm a k ∙ e ∙ bit_xor_comm k b)

-- The digit that falls out is the lowest digit of the result.
shift_out_parity : (c : ℕ) → shift_out c % 2 ≡ (if leb 0x8000 c then 1 else 0)
shift_out_parity c = ground (arith, bit_xor_step (c * 2 % 65536) 0x1021)

shift_out-injective : (c d : ℕ) → c < 65536 → d < 65536 → shift_out c ≡ shift_out d → c ≡ d
shift_out-injective c d hc hd e = ground (
  arith,
  shift_out_parity c,
  shift_out_parity d,
  e,
  bit_xor-injective_left (c * 2 % 65536) (d * 2 % 65536) 0x1021,
)

rounds-lt : (n c : ℕ) → c < 65536 → rounds n c < 65536
unfolding rounds
rounds-lt zero c h = h
rounds-lt (suc n) c h = rounds-lt n (shift_out c) (shift_out-lt c)

rounds-injective : (n c d : ℕ) → c < 65536 → d < 65536 → rounds n c ≡ rounds n d → c ≡ d
unfolding rounds
rounds-injective zero c d hc hd e = e
rounds-injective (suc n) c d hc hd e =
    shift_out-injective c d hc hd
      (rounds-injective n (shift_out c) (shift_out d) (shift_out-lt c) (shift_out-lt d) e)

-- the register after one byte
abbrev absorb : ℕ → ℕ → ℕ
absorb c x = rounds 8 (bit_xor c (x * 256))

absorb-lt : (c x : ℕ) → c < 65536 → x < 256 → absorb c x < 65536
absorb-lt c x hc hx = rounds-lt 8 (bit_xor c (x * 256)) (bit_xor-lt c (x * 256) hc (omega arith))

crc16-injective :
    (c d : ℕ) (xs : List ℕ) → c < 65536 → d < 65536 → AllBytes xs → crc16 c xs ≡ crc16 d xs → c ≡ d
unfolding crc16
crc16-injective c d [] hc hd h e = e
crc16-injective c d (x ∷ xs) hc hd h e = bit_xor-injective_left c d (x * 256) (
    rounds-injective 8 (bit_xor c (x * 256)) (bit_xor d (x * 256))
      (bit_xor-lt c (x * 256) hc (omega (arith, h.0)))
      (bit_xor-lt d (x * 256) hd (omega (arith, h.0)))
      (crc16-injective (absorb c x) (absorb d x) xs (absorb-lt c x hc h.0) (absorb-lt d x hd h.0)
        h.1 e))

pub crc16_differs :
    (c : ℕ) (pre post : List ℕ) (x y : ℕ)
    → c < 65536
    → AllBytes pre
    → AllBytes post
    → x < 256
    → y < 256
    → x ≢ y
    → crc16 c (pre ++ (x ∷ post)) ≢ crc16 c (pre ++ (y ∷ post))
unfolding crc16
crc16_differs c [] post x y hc hpre hpost hx hy ne e = ne (omega (arith, shifted))
  where
    shifted : x * 256 ≡ y * 256
    shifted = bit_xor-injective_right c (x * 256) (y * 256) (
        rounds-injective 8 (bit_xor c (x * 256)) (bit_xor c (y * 256))
          (bit_xor-lt c (x * 256) hc (omega arith)) (bit_xor-lt c (y * 256) hc (omega arith))
          (crc16-injective (absorb c x) (absorb c y) post (absorb-lt c x hc hx)
            (absorb-lt c y hc hy) hpost e))
crc16_differs c (p ∷ pre) post x y hc hpre hpost hx hy ne e =
    crc16_differs (absorb c p) pre post x y (absorb-lt c p hc hpre.0) hpre.1 hpost hx hy ne e

pub AllBytes-append : (xs ys : List ℕ) → AllBytes xs → AllBytes ys → AllBytes (xs ++ ys)
AllBytes-append [] ys h k = k
AllBytes-append (x ∷ xs) ys h k = (h.0, AllBytes-append xs ys h.1 k)

-- The code's checksums of two byte strings that differ in exactly one byte are different.
pub crc16_update_detects :
    (pre post : List ℕ) (x y : ℕ)
    → AllBytes pre
    → AllBytes post
    → x < 256
    → y < 256
    → x ≢ y
    → crc16_update 0 (pre ++ (x ∷ post)) ≢ crc16_update 0 (pre ++ (y ∷ post))
crc16_update_detects pre post x y hpre hpost hx hy ne e =
    crc16_differs 0 pre post x y (omega arith) hpre hpost hx hy ne (sym (code x hx) ∙ e ∙ code y hy)
  where
    code : (z : ℕ) → z < 256 → crc16_update 0 (pre ++ (z ∷ post)) ≡ crc16 0 (pre ++ (z ∷ post))
    code z hz =
        crc16_update-eq-crc16 0 (pre ++ (z ∷ post)) (omega arith)
          (AllBytes-append pre (z ∷ post) hpre (hz, hpost))
