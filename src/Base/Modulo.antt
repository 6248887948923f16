-- ===== src/Base/Modulo.antt =====
-- Remainders by a variable.
use Prim.Native.Nat.{ℕ, ◌+◌, ◌*◌, ◌%◌, ◌≤◌, ◌<◌}
use mathlib.Core.Path.{◌≡◌, ap}
use mathlib.Core.Logic.{◌≢◌, ◌⊎◌, inl, inr}
use native.Mathlib.Nat.{div-add-mod, mod-add-mod, mod-eq_of_lt, mod_self}
use native.Mathlib.Decide.{dec_lt}
use rfmarkit_esp_node.Base.Tests.{leb, if◌then◌else◌}
use native.Mathlib.Omega.{arith}

-- Two numbers less than `m` apart have different remainders by `m`.
pub mod-ne_of_near : (j k m : ℕ) → j < k → k < j + m → j % m ≢ k % m
mod-ne_of_near j k m h near e = grind (arith, div-add-mod j m, div-add-mod k m)

pub row_in_range : (a n w : ℕ) → a < n → a * w + w ≤ n * w
row_in_range a n w h = grind arith

-- Different rows of width `w` do not overlap.
pub rows_apart : (a b w : ℕ) → a ≢ b → (a * w + w ≤ b * w) ⊎ (b * w + w ≤ a * w)
rows_apart a b w h = elim (dec_lt a b) [
  | yes p ↦ inl (row_in_range a b w p)
  | no p ↦ inr (row_in_range b a w (omega arith))
]

pub mod-suc : (a m : ℕ) → (a % m + 1) % m ≡ (a + 1) % m
mod-suc a m = mod-add-mod a m 1

pub one-mod : (m : ℕ) → 2 ≤ m → 1 % m ≡ 1
one-mod m h = mod-eq_of_lt {n = 1} {m = m} h

pub mod-lt_pos : (a m : ℕ) → 1 ≤ m → a % m < m
mod-lt_pos a m h = omega arith

pub mod-add_mod : (a m b : ℕ) → (a % m + b) % m ≡ (a + b) % m
mod-add_mod a m b = mod-add-mod a m b

-- A counter that is put back to 0 when it reaches the bound.
pub wrap-mod : (i n : ℕ) → 1 ≤ n → i ≤ n → (if leb n i then 0 else i) ≡ i % n
wrap-mod i n pos h = elim (dec_lt i n) [
  | yes p ↦ ground (arith, mod-eq_of_lt p)
  | no p ↦ ground (arith, mod_self n, ap (λ (k : ℕ). k % n) {x = i} {y = n} (omega arith))
]
