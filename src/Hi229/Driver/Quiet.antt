-- ===== src/Hi229/Driver/Quiet.antt =====
-- How `poll` of lib/hi229/hi229.c takes bytes that bring no message, and bytes whose last one brings one.
use rfmarkit_esp_node.Base.{
  ℕ, ◌≡◌, refl, sym, ap, ◌∙◌, Bool, true, false, List, [], ◌∷◌, if◌then◌else◌,
}
use rfmarkit_esp_node.Base.Outcome.{Outcome, done, ◌>>=◌}
use rfmarkit_esp_node.Hi229.Raw.{FloatOps, Raw}
use rfmarkit_esp_node.Hi229.Input.{Status, no_message, message, error, ch_serial_input, feed}
use rfmarkit_esp_node.Hi229.Input.Steps.{ends_with}
use rfmarkit_esp_node.Hi229.Input.Stream.{>>=-eq-done}
use rfmarkit_esp_node.Hi229.Driver.{Hi229, is_message, take_message, poll_byte, poll}

-- No status is a message; the last status is a message, and all before it bring nothing.
unfoldable pub quiet : List Status → Bool
quiet [] = true
quiet (message ∷ ss) = false
quiet (no_message ∷ ss) = quiet ss
quiet (error ∷ ss) = quiet ss

unfoldable pub only_last : List Status → Bool
only_last [] = false
only_last (message ∷ []) = true
only_last (message ∷ s ∷ ss) = false
only_last (no_message ∷ ss) = only_last ss
only_last (error ∷ ss) = false

pub only_last-ends_with : (xs : List ℕ) → only_last (ends_with xs message) ≡ true
unfolding only_last
only_last-ends_with [] = refl
only_last-ends_with (x ∷ xs) = only_last-ends_with xs

pub quiet-ends_with : (xs : List ℕ) → quiet (ends_with xs error) ≡ true
unfolding quiet
quiet-ends_with [] = refl
quiet-ends_with (x ∷ xs) = quiet-ends_with xs

false-ne-true : false ≡ true → ⊥
false-ne-true e = cc

quiet_next :
    (s : Status) (ss ss' : List Status)
    → s ∷ ss' ≡ ss
    → quiet ss ≡ true
    → (is_message s ≡ false) × (quiet ss' ≡ true)
unfolding quiet is_message
quiet_next message ss ss' e q = absurd (false-ne-true (ap quiet e ∙ q))
quiet_next no_message ss ss' e q = (refl, ap quiet e ∙ q)
quiet_next error ss ss' e q = (refl, ap quiet e ∙ q)

only_last_next :
    (s t : Status) (ss ts : List Status)
    → s ∷ t ∷ ts ≡ ss
    → only_last ss ≡ true
    → (is_message s ≡ false) × (only_last (t ∷ ts) ≡ true)
unfolding only_last is_message
only_last_next message t ss ts e q = absurd (false-ne-true (ap only_last e ∙ q))
only_last_next no_message t ss ts e q = (refl, ap only_last e ∙ q)
only_last_next error t ss ts e q = absurd (false-ne-true (ap only_last e ∙ q))

only_last_end :
    (s : Status) (ss : List Status) → s ∷ [] ≡ ss → only_last ss ≡ true → is_message s ≡ true
unfolding only_last is_message
only_last_end message ss e q = refl
only_last_end no_message ss e q = ap only_last e ∙ q
only_last_end error ss e q = ap only_last e ∙ q

module _ {F : Type 0} (fl : FloatOps F) (now : ℕ) where
  poll-step :
      (p : Hi229 F) (x : ℕ) (xs : List ℕ) (s : Status) (raw : Raw F)
      → ch_serial_input fl p.raw x true ≡ done (s, raw)
      → poll fl now p (x ∷ xs)
        ≡ poll fl now
            (if is_message s
              then take_message now (record p { raw = raw })
              else record p { raw = raw })
            xs
  unfolding poll poll_byte
  poll-step p x xs s raw e =
      ap
        (λ (o : Outcome (Status × Raw F)).
          (o >>= λ r. done (
            if is_message r.0
            then take_message now (record p { raw = r.1 })
            else record p { raw = r.1 }))
          >>= λ p'. poll fl now p' xs)
        e

  pub poll-quiet :
      (xs : List ℕ) (p : Hi229 F) (ss : List Status) (raw' : Raw F)
      → feed fl p.raw xs true ≡ done (ss, raw')
      → quiet ss ≡ true
      → poll fl now p xs ≡ done (record p { raw = raw' })
  unfolding feed poll quiet is_message
  poll-quiet [] p ss raw' e q =
      let same : p.raw ≡ raw' = cc in ap (λ (r : Raw F). done (record p { raw = r })) same
  poll-quiet (x ∷ xs) p ss raw' e q =
      let (a, first, later) = >>=-eq-done (ch_serial_input fl p.raw x true) _ e in
      let (b, fed, end) = >>=-eq-done (feed fl a.1 xs true) _ later in
      let list : a.0 ∷ b.0 ≡ ss = cc in
      let same : b.1 ≡ raw' = cc in
      let next = quiet_next a.0 ss b.0 list q in
      poll-step p x xs a.0 a.1 first
      ∙ (λ i.
          poll fl now
            (if next.0 i then take_message now (record p { raw = a.1 }) else record p { raw = a.1 })
            xs)
      ∙ poll-quiet xs (record p { raw = a.1 }) b.0 raw'
          (fed ∙ ap (λ (r : Raw F). done (b.0, r)) same) next.1

  pub poll-last :
      (xs : List ℕ) (p : Hi229 F) (ss : List Status) (raw' : Raw F)
      → feed fl p.raw xs true ≡ done (ss, raw')
      → only_last ss ≡ true
      → poll fl now p xs ≡ done (take_message now (record p { raw = raw' }))
  unfolding feed poll only_last is_message
  poll-last [] p ss raw' e q =
      let list : [] ≡ ss = cc in absurd (false-ne-true (ap only_last list ∙ q))
  poll-last (x ∷ []) p ss raw' e q =
      let (a, first, later) = >>=-eq-done (ch_serial_input fl p.raw x true) _ e in
      let list : a.0 ∷ [] ≡ ss = cc in
      let same : a.1 ≡ raw' = cc in
      let end = only_last_end a.0 ss list q in
      poll-step p x [] a.0 a.1 first ∙ (λ i.
        done (
          if end i
          then take_message now (record p { raw = same i })
          else record p { raw = same i }))
  poll-last (x ∷ y ∷ ys) p ss raw' e q =
      let (a, first, later) = >>=-eq-done (ch_serial_input fl p.raw x true) _ e in
      let (b, fed, end) = >>=-eq-done (feed fl a.1 (y ∷ ys) true) _ later in
      let (c, second, rest) = >>=-eq-done (ch_serial_input fl a.1 y true) _ fed in
      let (d, fed', end') = >>=-eq-done (feed fl c.1 ys true) _ rest in
      let more : c.0 ∷ d.0 ≡ b.0 = cc in
      let list : a.0 ∷ c.0 ∷ d.0 ≡ ss = cc in
      let same : b.1 ≡ raw' = cc in
      let next = only_last_next a.0 c.0 ss d.0 list q in
      poll-step p x (y ∷ ys) a.0 a.1 first
      ∙ (λ i.
          poll fl now
            (if next.0 i then take_message now (record p { raw = a.1 }) else record p { raw = a.1 })
            (y ∷ ys))
      ∙ poll-last (y ∷ ys) (record p { raw = a.1 }) b.0 raw'
          (fed ∙ ap (λ (r : Raw F). done (b.0, r)) same) (ap only_last (sym more) ∙ next.1)
