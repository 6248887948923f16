-- ===== src/Base/Memory.antt =====
-- Byte arrays with the effect of `memcpy`: `write_at` copies a block into an array, `read_at` copies
-- one out. Both are used under a bounds test, since C leaves an access out of range undefined.
use Prim.Native.Nat.{ℕ, zero, suc, ◌+◌, ◌≤◌, ◌<◌}
use mathlib.Core.Path.{◌≡◌, refl, ap, ap₂, ◌∙◌}
use mathlib.Core.Logic.{◌⊎◌, inl, inr}
use mathlib.Core.List.{List, [], ◌∷◌}
use native.Mathlib.Omega.{arith}
use rfmarkit_esp_node.Base.Lists.{length, get_or, set, length-set, get_or-set_self, get_or-set_ne}

abbrev pub write_at : List ℕ → ℕ → List ℕ → List ℕ
write_at buf ofs [] = buf
write_at buf ofs (x ∷ xs) = write_at (set buf ofs x) (ofs + 1) xs

abbrev pub read_at : List ℕ → ℕ → ℕ → List ℕ
read_at buf ofs zero = []
read_at buf ofs (suc n) = get_or buf ofs 0 ∷ read_at buf (ofs + 1) n

pub length-write_at :
    (buf : List ℕ) (ofs : ℕ) (xs : List ℕ) → length (write_at buf ofs xs) ≡ length buf
length-write_at buf ofs [] = refl
length-write_at buf ofs (x ∷ xs) =
    length-write_at (set buf ofs x) (ofs + 1) xs ∙ length-set buf ofs x

pub length-read_at : (buf : List ℕ) (ofs n : ℕ) → length (read_at buf ofs n) ≡ n
length-read_at buf ofs zero = refl
length-read_at buf ofs (suc n) = ap suc (length-read_at buf (ofs + 1) n)

pub get_or-write_at_before :
    (buf : List ℕ) (ofs : ℕ) (xs : List ℕ) (j : ℕ)
    → j < ofs
    → get_or (write_at buf ofs xs) j 0 ≡ get_or buf j 0
get_or-write_at_before buf ofs [] j h = refl
get_or-write_at_before buf ofs (x ∷ xs) j h =
    get_or-write_at_before (set buf ofs x) (ofs + 1) xs j (omega arith)
    ∙ get_or-set_ne buf ofs j x 0 (omega arith)

pub get_or-write_at_after :
    (buf : List ℕ) (ofs : ℕ) (xs : List ℕ) (j : ℕ)
    → ofs + length xs ≤ j
    → get_or (write_at buf ofs xs) j 0 ≡ get_or buf j 0
get_or-write_at_after buf ofs [] j h = refl
get_or-write_at_after buf ofs (x ∷ xs) j h =
    get_or-write_at_after (set buf ofs x) (ofs + 1) xs j (omega arith)
    ∙ get_or-set_ne buf ofs j x 0 (omega arith)

-- A block read back from where it was written.
pub read_at-write_at_self :
    (buf : List ℕ) (ofs : ℕ) (xs : List ℕ)
    → ofs + length xs ≤ length buf
    → read_at (write_at buf ofs xs) ofs (length xs) ≡ xs
read_at-write_at_self buf ofs [] h = refl
read_at-write_at_self buf ofs (x ∷ xs) h =
    ap₂ ◌∷◌
      (get_or-write_at_before (set buf ofs x) (ofs + 1) xs ofs (omega arith)
        ∙ get_or-set_self buf ofs x 0 (omega arith))
      (read_at-write_at_self (set buf ofs x) (ofs + 1) xs (omega (arith, length-set buf ofs x)))

-- A block apart from the one written keeps its bytes.
pub read_at-write_at_apart :
    (buf : List ℕ) (ofs : ℕ) (xs : List ℕ) (at n : ℕ)
    → (at + n ≤ ofs) ⊎ (ofs + length xs ≤ at)
    → read_at (write_at buf ofs xs) at n ≡ read_at buf at n
read_at-write_at_apart buf ofs xs at zero h = refl
read_at-write_at_apart buf ofs xs at (suc n) (inl h) =
    ap₂ ◌∷◌ (get_or-write_at_before buf ofs xs at (omega arith))
      (read_at-write_at_apart buf ofs xs (at + 1) n (inl (omega arith)))
read_at-write_at_apart buf ofs xs at (suc n) (inr h) =
    ap₂ ◌∷◌ (get_or-write_at_after buf ofs xs at h)
      (read_at-write_at_apart buf ofs xs (at + 1) n (inr (omega arith)))
