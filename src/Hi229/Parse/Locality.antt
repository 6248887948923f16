-- ===== src/Hi229/Parse/Locality.antt =====
-- The reads at an offset of the buffer are the reads of the bytes that stand there.
use rfmarkit_esp_node.Base.{
  ℕ, suc, ◌+◌, ◌*◌, ◌≡◌, ap, ◌∙◌, arith, Option, some, List, ◌∷◌, get_elem?,
}
use mathlib.Core.Path.{ap₂}
use rfmarkit_esp_node.Base.OptionDo.{◌>>=◌}
use rfmarkit_esp_node.Hi229.Raw.{
  FloatOps, u2, u4, r4, i2_over, i2_vector, r4_vector, r4_quaternion, int16,
}
use rfmarkit_esp_node.Hi229.Parse.{node}

-- From index p on, the buffer is the list.
abbrev pub At : List ℕ → ℕ → List ℕ → Type 0
At buf p xs = (k : ℕ) → get_elem? buf (p + k) ≡ get_elem? xs k

pub At-tail : (buf : List ℕ) (p x : ℕ) (xs : List ℕ) → At buf p (x ∷ xs) → At buf (p + 1) xs
At-tail buf p x xs h k = ap (get_elem? buf) (omega arith) ∙ h (suc k)

-- A read with the offset regrouped.
regroup : (A : Type 0) (f : ℕ → A) (p k j : ℕ) → f (p + k + j) ≡ f (p + (k + j))
regroup A f p k j = ap f (omega arith)

module _ (buf : List ℕ) (p : ℕ) (xs : List ℕ) (h : At buf p xs) where
  pub u2-At : (k : ℕ) → u2 buf (p + k) ≡ u2 xs k
  unfolding u2
  u2-At k =
      ap₂ (λ (x y : Option ℕ). x >>= λ a. y >>= λ b. some (a + b * 256)) (h k)
        (regroup (Option ℕ) (get_elem? buf) p k 1 ∙ h (k + 1))

  pub u4-At : (k : ℕ) → u4 buf (p + k) ≡ u4 xs k
  unfolding u4
  u4-At k =
      ap₂ (λ (x y : Option ℕ). x >>= λ a. y >>= λ b. some (a + b * 65536)) (u2-At k)
        (regroup (Option ℕ) (u2 buf) p k 2 ∙ u2-At (k + 2))

module _ {F : Type 0} (fl : FloatOps F) (buf : List ℕ) (p : ℕ) (xs : List ℕ) (h : At buf p xs) where
  pub r4-At : (k : ℕ) → r4 fl buf (p + k) ≡ r4 fl xs k
  unfolding r4
  r4-At k = ap (λ (x : Option ℕ). x >>= λ u. some (fl.of_bits u)) (u4-At buf p xs h k)

  i2_over-At : (k d : ℕ) → i2_over fl buf (p + k) d ≡ i2_over fl xs k d
  unfolding i2_over
  i2_over-At k d =
      ap (λ (x : Option ℕ). x >>= λ u. some (fl.quotient (int16 u) d)) (u2-At buf p xs h k)

  i2_over-At_next : (k j d : ℕ) → i2_over fl buf (p + k + j) d ≡ i2_over fl xs (k + j) d
  i2_over-At_next k j d = regroup (Option F) (λ n. i2_over fl buf n d) p k j ∙ i2_over-At (k + j) d

  r4-At_next : (k j : ℕ) → r4 fl buf (p + k + j) ≡ r4 fl xs (k + j)
  r4-At_next k j = regroup (Option F) (λ n. r4 fl buf n) p k j ∙ r4-At (k + j)

  pub i2_vector-At : (k a b c : ℕ) → i2_vector fl buf (p + k) a b c ≡ i2_vector fl xs k a b c
  unfolding i2_vector
  i2_vector-At k a b c = λ i. i2_over-At k a i >>= λ x.
      i2_over-At_next k 2 b i >>= λ y. i2_over-At_next k 4 c i >>= λ z. some (x, y, z)

  pub r4_vector-At : (k : ℕ) → r4_vector fl buf (p + k) ≡ r4_vector fl xs k
  unfolding r4_vector
  r4_vector-At k =
      λ i. r4-At k i >>= λ x. r4-At_next k 4 i >>= λ y. r4-At_next k 8 i >>= λ z. some (x, y, z)

  pub r4_quaternion-At : (k : ℕ) → r4_quaternion fl buf (p + k) ≡ r4_quaternion fl xs k
  unfolding r4_quaternion
  r4_quaternion-At k = λ i. r4-At k i >>= λ w. r4-At_next k 4 i >>= λ x.
      r4-At_next k 8 i >>= λ y. r4-At_next k 12 i >>= λ z. some (w, x, y, z)

  pub node-At : node fl buf p ≡ node fl xs 0
  unfolding node
  node-At = λ i. h 1 i >>= λ id. r4-At 4 i >>= λ pressure. u4-At buf p xs h 8 i >>= λ timestamp.
      r4_vector-At 12 i >>= λ acc. r4_vector-At 24 i >>= λ gyr. r4_vector-At 36 i >>= λ mag.
      r4_vector-At 48 i >>= λ eul. r4_quaternion-At 60 i >>= λ quat. some (record {
        id = id;
        acc = acc;
        gyr = gyr;
        mag = mag;
        eul = eul;
        quat = quat;
        pressure = pressure;
        timestamp = timestamp;
      })
