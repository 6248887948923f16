-- ===== src/Blink/Cycle.antt =====
-- `blink_timeout` of components/blink/blink.c over time.
use rfmarkit_esp_node.Base.{
  ℕ, zero, suc, ◌+◌, ◌%◌, ◌≤◌, ◌<◌, ◌≡◌, refl, ap, ◌∙◌, arith, Option, some, length,
  get_elem?-defined, wrap-mod, mod-lt_pos, mod-add_mod,
}
use rfmarkit_esp_node.Base.OptionDo.{◌>>=◌}
use rfmarkit_esp_node.Blink.{Blink, pattern_bytes, wrapped_idx, blink_timeout, shown, timeouts}

around : (n i j m m' : ℕ) → j ≡ i % m + 1 → m' ≡ m → (j + n) % m' ≡ (i + suc n) % m
around n i j m m' e e' =
    ap (λ (t : ℕ). t % m') {x = j + n} {y = i % m + suc n} (omega (arith, e))
    ∙ ap (λ (t : ℕ). (i % m + suc n) % t) e'
    ∙ mod-add_mod i m (suc n)

-- One round: the byte exists, and the index goes one place on.
shown_next :
    (b : Blink)
    → 0 < length (pattern_bytes b)
    → b.blink_idx ≤ length (pattern_bytes b)
    → (b' : Blink) × (blink_timeout b ≡ some b')
      × (pattern_bytes b' ≡ pattern_bytes b)
      × (b'.blink_idx ≡ b.blink_idx % length (pattern_bytes b) + 1)
unfolding blink_timeout pattern_bytes wrapped_idx
shown_next b some_bytes within =
    let wraps = wrap-mod b.blink_idx (length (pattern_bytes b)) (omega arith) within in
    let inside = mod-lt_pos b.blink_idx (length (pattern_bytes b)) (omega arith) in
    let (value, found) =
      get_elem?-defined (pattern_bytes b) (wrapped_idx b) (omega (arith, wraps, inside)) in
    (_, ap (λ (o : Option ℕ). o >>= λ v. some (shown v b)) found, refl, ap (λ (i : ℕ). i + 1) wraps)

-- The timer's rounds from an index within the pattern (which must not be empty): all of them are
-- defined, and after n of them the next byte shown is the one n places on, counted around the pattern.
timeouts-wraps :
    (n : ℕ) (b : Blink)
    → 0 < length (pattern_bytes b)
    → b.blink_idx ≤ length (pattern_bytes b)
    → (b' : Blink) × (timeouts n b ≡ some b')
      × (pattern_bytes b' ≡ pattern_bytes b)
      × (wrapped_idx b' ≡ (b.blink_idx + n) % length (pattern_bytes b))
unfolding timeouts wrapped_idx
timeouts-wraps zero b some_bytes within = (
  b,
  refl,
  refl,
  wrap-mod b.blink_idx (length (pattern_bytes b)) (omega arith) within
      ∙ ap (λ (k : ℕ). k % length (pattern_bytes b)) (omega arith),
)
timeouts-wraps (suc n) b some_bytes within =
    let (b₁, first, same, idx) = shown_next b some_bytes within in
    let sizes = ap length same in
    let inside = mod-lt_pos b.blink_idx (length (pattern_bytes b)) (omega arith) in
    let (b₂, rest, same', idx') =
      timeouts-wraps n b₁ (omega (arith, sizes)) (omega (arith, sizes, idx, inside)) in
    (
      b₂,
      ap (λ (o : Option Blink). o >>= λ b'. timeouts n b') first ∙ rest,
      same' ∙ same,
      idx'
          ∙ around n b.blink_idx b₁.blink_idx (length (pattern_bytes b)) (length (pattern_bytes b₁))
              idx sizes,
    )
