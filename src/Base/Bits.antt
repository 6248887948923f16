-- ===== src/Base/Bits.antt =====
-- `bit_xor` and `bit_and` at variables, from the recursion on binary digits that they stand for.
use Prim.Native.Nat.{
  ℕ, zero, suc, ◌+◌, ◌-◌, ◌*◌, ◌/◌, ◌%◌, ◌^◌, ◌≤◌, ◌<◌, min, bit_and, bit_xor, digits, bitwise,
  bit_and-bitwise, bit_xor-bitwise, differ,
}
use mathlib.Core.Path.{◌≡◌, refl, sym, ◌∙◌, ap, ap₂}
use native.Mathlib.Nat.{pow-suc, pow-succ', div-add-mod, div-div-eq-div-mul, mod-one, one-le-pow}
use native.Mathlib.Omega.{arith}

-- Rounds added on top of n.
abbrev topped_up : ℕ → ℕ → ℕ
topped_up zero n = n
topped_up (suc k) n = suc (topped_up k n)

topped_up-sum : (k n : ℕ) → topped_up k n ≡ k + n
topped_up-sum zero n = omega arith
topped_up-sum (suc k) n = omega (arith, topped_up-sum k n)

module _ (base : ℕ → ℕ) (op : ℕ → ℕ → ℕ) where
  -- A round that is not needed changes nothing.
  idle_round :
      (n left right : ℕ)
      → left ≤ n
      → digits base op (suc n) left right ≡ digits base op n left right
  idle_round (suc n) (suc left) right h = rw (idle_round n (suc left / 2) (right / 2) (omega arith))
  idle_round (suc n) zero right h = refl
  idle_round zero (suc left) right h = absurd (omega arith)
  idle_round zero zero right h = refl

  idle_rounds :
      (k n left right : ℕ)
      → left ≤ n
      → digits base op (topped_up k n) left right ≡ digits base op n left right
  idle_rounds zero n left right h = refl
  idle_rounds (suc k) n left right h =
      idle_round (topped_up k n) left right (omega (arith, topped_up-sum k n))
      ∙ idle_rounds k n left right h

  lowest_digit :
      (left right : ℕ)
      → bitwise base op (suc left) right
        ≡ op (suc left % 2) (right % 2) + 2 * bitwise base op (suc left / 2) (right / 2)
  lowest_digit left right =
      let half = suc left / 2 in
      omega (
        arith,
        ap (λ (n : ℕ). digits base op n half (right / 2)) {x = left}
            {y = topped_up (left - half) half} (omega (arith, topped_up-sum (left - half) half)),
        idle_rounds (left - half) half half (right / 2) (omega arith),
      )

differ_parity : (x y : ℕ) → x < 2 → y < 2 → differ x y ≡ (x + y) % 2
differ_parity zero zero p q = refl
differ_parity zero (suc zero) p q = refl
differ_parity (suc zero) zero p q = refl
differ_parity (suc zero) (suc zero) p q = refl
differ_parity _ (suc (suc y)) p q = absurd (omega arith)
differ_parity (suc (suc x)) _ p q = absurd (omega arith)

-- The lowest digit of an exclusive or is the parity of the sum, the others are those of the halves.
pub bit_xor_step : (a b : ℕ) → bit_xor a b ≡ bit_xor (a / 2) (b / 2) * 2 + (a + b) % 2
bit_xor_step zero b = simp bit_xor-bitwise (omega arith)
bit_xor_step (suc a) b = simp bit_xor-bitwise (
    omega (
      arith,
      lowest_digit (λ b. b) differ a b,
      differ_parity (suc a % 2) (b % 2) (omega arith) (omega arith),
    ))

pub bit_and_step : (m n : ℕ) → bit_and m n ≡ min (m % 2) (n % 2) + 2 * bit_and (m / 2) (n / 2)
bit_and_step (suc m) n = simp bit_and-bitwise (lowest_digit (λ rest. 0) min m n)
bit_and_step zero n = simp bit_and-bitwise (omega arith)

half_bit_xor : (a b : ℕ) → bit_xor a b / 2 ≡ bit_xor (a / 2) (b / 2)
half_bit_xor a b = omega (arith, bit_xor_step a b)

cancel_upto : (n a k : ℕ) → a ≤ n → k ≤ n → bit_xor (bit_xor a k) k ≡ a
cancel_upto zero zero zero p q = refl
cancel_upto zero (suc a) k p q = absurd (omega arith)
cancel_upto zero zero (suc k) p q = absurd (omega arith)
cancel_upto (suc n) a k p q = omega (
  arith,
  bit_xor_step (bit_xor a k) k,
  bit_xor_step a k,
  ap (λ (t : ℕ). bit_xor t (k / 2)) (half_bit_xor a k),
  cancel_upto n (a / 2) (k / 2) (omega arith) (omega arith),
)

pub bit_xor_cancel : (a k : ℕ) → bit_xor (bit_xor a k) k ≡ a
bit_xor_cancel a k = cancel_upto (a + k) a k (omega arith) (omega arith)

comm_upto : (n a b : ℕ) → a ≤ n → b ≤ n → bit_xor a b ≡ bit_xor b a
comm_upto zero zero zero p q = refl
comm_upto zero (suc a) b p q = absurd (omega arith)
comm_upto zero zero (suc b) p q = absurd (omega arith)
comm_upto (suc n) a b p q = omega (
  arith,
  bit_xor_step a b,
  bit_xor_step b a,
  comm_upto n (a / 2) (b / 2) (omega arith) (omega arith),
)

pub bit_xor_comm : (a b : ℕ) → bit_xor a b ≡ bit_xor b a
bit_xor_comm a b = comm_upto (a + b) a b (omega arith) (omega arith)

mod_double : (a m : ℕ) → 1 ≤ m → (a % (2 * m)) / 2 ≡ (a / 2) % m
mod_double a m h = omega (
  arith,
  div-add-mod a (2 * m),
  div-add-mod (a / 2) m,
  div-div-eq-div-mul a 2 m,
  ap (λ (t : ℕ). m * t) (div-div-eq-div-mul a 2 m),
)

mod_double_parity : (a m : ℕ) → (a % (2 * m)) % 2 ≡ a % 2
mod_double_parity a m = omega (arith, div-add-mod a (2 * m))

eq_of_halves : (x y : ℕ) → x / 2 ≡ y / 2 → x % 2 ≡ y % 2 → x ≡ y
eq_of_halves x y h p = omega arith

bit_xor-mod_double :
    (m a b : ℕ)
    → 1 ≤ m
    → bit_xor (a / 2) (b / 2) % m ≡ bit_xor (a / 2 % m) (b / 2 % m)
    → bit_xor a b % (2 * m) ≡ bit_xor (a % (2 * m)) (b % (2 * m))
bit_xor-mod_double m a b pos ih =
    eq_of_halves (bit_xor a b % (2 * m)) (bit_xor (a % (2 * m)) (b % (2 * m)))
      (mod_double (bit_xor a b) m pos
        ∙ ap (λ (t : ℕ). t % m) (half_bit_xor a b)
        ∙ ih
        ∙ sym (ap₂ bit_xor (mod_double a m pos) (mod_double b m pos))
        ∙ sym (half_bit_xor (a % (2 * m)) (b % (2 * m))))
      (omega (
        arith,
        mod_double_parity (bit_xor a b) m,
        mod_double_parity a m,
        mod_double_parity b m,
        bit_xor_step a b,
        bit_xor_step (a % (2 * m)) (b % (2 * m)),
      ))

-- An exclusive or is taken digit by digit, so it may be cut to k digits before or after.
pub bit_xor-mod : (k a b : ℕ) → bit_xor a b % 2 ^ k ≡ bit_xor (a % 2 ^ k) (b % 2 ^ k)
bit_xor-mod zero a b = simp mod-one
bit_xor-mod (suc k) a b =
    rw (pow-succ' 2 k) (
      bit_xor-mod_double (2 ^ k) a b (one-le-pow k 2 (omega arith)) (bit_xor-mod k (a / 2) (b / 2)))

bit_and-zero : (n a : ℕ) → a ≤ n → bit_and a 0 ≡ 0
bit_and-zero zero zero h = refl
bit_and-zero zero (suc a) h = absurd (omega arith)
bit_and-zero (suc n) a h = omega (arith, bit_and_step a 0, bit_and-zero n (a / 2) (omega arith))

half_double : (k : ℕ) → 2 ^ suc k / 2 ≡ 2 ^ k
half_double k = omega (arith, pow-suc 2 k)

-- A mask of one digit, the k-th.
pub bit_and-pow : (k a : ℕ) → bit_and a (2 ^ k) ≡ (a / 2 ^ k) % 2 * 2 ^ k
bit_and-pow zero a = omega (arith, bit_and_step a 1, bit_and-zero (a / 2) (a / 2) (omega arith))
bit_and-pow (suc k) a = grind (
  arith,
  bit_and_step a (2 ^ suc k),
  pow-suc 2 k,
  bit_and-pow k (a / 2),
  ap (λ (t : ℕ). bit_and (a / 2) t) (half_double k),
  div-div-eq-div-mul a 2 (2 ^ k),
  ap (λ (t : ℕ). a / t) (pow-succ' 2 k),
  ap (λ (t : ℕ). t % 2 * 2 ^ k)
      (div-div-eq-div-mul a 2 (2 ^ k) ∙ ap (λ (t : ℕ). a / t) (sym (pow-succ' 2 k))),
)
