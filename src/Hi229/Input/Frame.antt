-- ===== src/Hi229/Input/Frame.antt =====
-- A whole frame through `ch_serial_input`: the bytes of the header and of the payload up to `decode_ch`.
use mathlib.Core.Path.{ap₂}
use rfmarkit_esp_node.Base.{
  append_assoc, length-append, set-append_at, ℕ, zero, suc, ◌+◌, ◌*◌, ◌/◌, ◌%◌, ◌≤◌, ◌≡◌, refl, sym,
  ap, ◌∙◌, arith, true, false, some, List, [], ◌∷◌, ◌++◌, length, drop, set, get_or, read_at,
  write_at, length-set, ltb, ◌==◌, if◌then◌else◌,
}
use rfmarkit_esp_node.Base.Outcome.{done, undefined}
use rfmarkit_esp_node.Hi229.Raw.{FloatOps, Raw, u2}
use rfmarkit_esp_node.Hi229.Crc.{crc16_update}
use rfmarkit_esp_node.Hi229.Parse.{parse_data}
use rfmarkit_esp_node.Hi229.Parse.Items.{word2}
use rfmarkit_esp_node.Hi229.Input.{Status, no_message, error, parsed, decode_ch, feed}
use rfmarkit_esp_node.Hi229.Input.Steps.{
  ends_with, stored, input-waits, feed-cons, feed-header, sync-found,
}

-- The checksum of a payload: over the first four bytes of the header, and the payload.
unfoldable pub checksum : List ℕ → ℕ
checksum payload = crc16_update (crc16_update 0 (0x5a ∷ 0xa5 ∷ word2 (length payload) [])) payload

-- The frame of a payload with a checksum.
unfoldable pub frame : List ℕ → ℕ → List ℕ
frame payload crc = 0x5a ∷ 0xa5 ∷ word2 (length payload) (word2 crc payload)

write_at-append :
    (pre rest xs : List ℕ) (n : ℕ)
    → n ≡ length pre
    → length xs ≤ length rest
    → write_at (pre ++ rest) n xs ≡ pre ++ (xs ++ drop (length xs) rest)
write_at-append pre rest [] n e h = refl
write_at-append pre [] (x ∷ xs) n e h = absurd (omega arith)
write_at-append pre (r ∷ rest) (x ∷ xs) n e h =
    (λ i. write_at (set (pre ++ r ∷ rest) (e i) x) (n + 1) xs)
    ∙ (λ i. write_at (set-append_at pre rest r x i) (n + 1) xs)
    ∙ write_at-append (pre ++ x ∷ []) rest xs (n + 1)
        (omega (arith, length-append {0} pre (x ∷ []))) (omega arith)
    ∙ append_assoc pre (x ∷ []) (xs ++ drop (length xs) rest)

length-drop : (n : ℕ) (xs : List ℕ) → n ≤ length xs → n + length (drop n xs) ≡ length xs
length-drop zero xs h = omega arith
length-drop (suc n) [] h = absurd (omega arith)
length-drop (suc n) (x ∷ xs) h = omega (arith, length-drop n xs (omega arith))

get_or-append_at : (pre rest : List ℕ) (x n : ℕ) → n ≡ length pre → get_or (pre ++ x ∷ rest) n 0 ≡ x
get_or-append_at pre rest x n e = ap (λ (k : ℕ). get_or (pre ++ x ∷ rest) k 0) e ∙ at pre
  where
    at : (pre : List ℕ) → get_or (pre ++ x ∷ rest) (length pre) 0 ≡ x
    at [] = refl
    at (p ∷ pre) = at pre

read_at-append :
    (pre xs post : List ℕ) (n : ℕ)
    → n ≡ length pre
    → read_at (pre ++ (xs ++ post)) n (length xs) ≡ xs
read_at-append pre [] post n e = refl
read_at-append pre (x ∷ xs) post n e = ap₂ ◌∷◌ (get_or-append_at pre (xs ++ post) x n e) (
    ap (λ (b : List ℕ). read_at b (n + 1) (length xs))
      (sym (append_assoc pre (x ∷ []) (xs ++ post)))
    ∙ read_at-append (pre ++ x ∷ []) xs post (n + 1)
        (omega (arith, length-append {0} pre (x ∷ []))))

-- The buffer once the header is stored.
header_stored :
    (buf : List ℕ) (b₂ b₃ b₄ b₅ : ℕ)
    → length buf ≡ 512
    → get_or buf 0 0 ≡ 0x5a
    → get_or buf 1 0 ≡ 0xa5
    → (rest : List ℕ) × (length rest ≡ 506)
      × (set (set (set (set buf 2 b₂) 3 b₃) 4 b₄) 5 b₅ ≡ 0x5a ∷ 0xa5 ∷ b₂ ∷ b₃ ∷ b₄ ∷ b₅ ∷ rest)
header_stored (x₀ ∷ x₁ ∷ x₂ ∷ x₃ ∷ x₄ ∷ x₅ ∷ rest) b₂ b₃ b₄ b₅ size e₀ e₁ = (rest, omega arith, cc)
header_stored [] b₂ b₃ b₄ b₅ size e₀ e₁ = absurd (omega arith)
header_stored (x₀ ∷ []) b₂ b₃ b₄ b₅ size e₀ e₁ = absurd (omega arith)
header_stored (x₀ ∷ x₁ ∷ []) b₂ b₃ b₄ b₅ size e₀ e₁ = absurd (omega arith)
header_stored (x₀ ∷ x₁ ∷ x₂ ∷ []) b₂ b₃ b₄ b₅ size e₀ e₁ = absurd (omega arith)
header_stored (x₀ ∷ x₁ ∷ x₂ ∷ x₃ ∷ []) b₂ b₃ b₄ b₅ size e₀ e₁ = absurd (omega arith)
header_stored (x₀ ∷ x₁ ∷ x₂ ∷ x₃ ∷ x₄ ∷ []) b₂ b₃ b₄ b₅ size e₀ e₁ = absurd (omega arith)

module _ {F : Type 0} (fl : FloatOps F) where
  -- The buffer with a frame in it, and what stood behind.
  abbrev pub framed : List ℕ → ℕ → List ℕ → List ℕ
  framed payload crc post = 0x5a ∷ 0xa5 ∷ word2 (length payload) (word2 crc (payload ++ post))

  -- The checksum decides whether the payload is parsed.
  pub decode_ch-framed :
      (raw : Raw F) (payload post : List ℕ) (crc : ℕ)
      → decode_ch fl
          (record raw { len = length payload; buf = framed payload crc post; nbyte = 0 })
          true
        ≡ (let r = record raw { len = length payload; buf = framed payload crc post; nbyte = 0 } in
            if checksum payload == crc then parsed fl (parse_data fl r) else done (error, r))
  unfolding decode_ch checksum u2
  decode_ch-framed raw payload post crc =
      let r = record raw { len = length payload; buf = framed payload crc post; nbyte = 0 } in
      let room : ltb (length (framed payload crc post)) (6 + length payload) ≡ false =
        ground (arith, length-append {0} payload post) in
      let start = crc16_update 0 (0x5a ∷ 0xa5 ∷ word2 (length payload) []) in
      let body =
        read_at-append (0x5a ∷ 0xa5 ∷ word2 (length payload) (word2 crc [])) payload post 6 refl in
      let word : crc % 256 + crc / 256 * 256 ≡ crc = omega arith in
      λ i.
        if room i
        then undefined
        else if crc16_update start (body i) == word i
        then parsed fl (parse_data fl r)
        else done (error, r)

  -- The bytes of a frame from an idle parser: the last one decodes it, all others bring no message.
  pub feed-frame :
      (raw : Raw F) (payload : List ℕ) (crc : ℕ)
      → raw.nbyte ≡ 0
      → length raw.buf ≡ 512
      → length payload ≤ 506
      → (post : List ℕ) × (length payload + length post ≡ 506)
        × ((s : Status) (raw'' : Raw F)
            → decode_ch fl
                (record raw { len = length payload; buf = framed payload crc post; nbyte = 0 })
                true
              ≡ done (s, raw'')
            → feed fl raw (frame payload crc) true
              ≡ done (ends_with (0xa5 ∷ word2 (length payload) (word2 crc payload)) s, raw''))
  unfolding frame u2
  feed-frame raw payload crc idle size short =
      let (b, b_size, first, second, go_on) = sync-found fl true raw idle size in
      let l₀ = length payload % 256 in
      let l₁ = length payload / 256 in
      let (rest, rest_size, header) =
        header_stored b l₀ l₁ (crc % 256) (crc / 256) b_size first second in
      let r₂ = record raw { buf = b; nbyte = 2 } in
      let r₃ = stored fl true r₂ l₀ in
      let r₄ = stored fl true r₃ l₁ in
      let r₅ = stored fl true r₄ (crc % 256) in
      (
        drop (length payload) rest,
        omega (arith, length-drop (length payload) rest (omega arith)),
        λ s raw'' decoded. go_on _ _ raw'' (
            feed-cons fl true r₂ r₃ raw'' l₀ _ no_message _
              (input-waits fl true r₂ l₀ (omega arith) (omega (arith, b_size)) (omega arith)
                (omega arith))
              (feed-cons fl true r₃ r₄ raw'' l₁ _ no_message _
                (input-waits fl true r₃ l₁ (omega arith) (omega (arith, b_size, length-set b 2 l₀))
                  (omega arith) (omega arith))
                (feed-cons fl true r₄ r₅ raw'' (crc % 256) _ no_message _
                  (input-waits fl true r₄ (crc % 256) (omega arith)
                    (omega (arith, b_size, length-set b 2 l₀, length-set r₃.buf 3 l₁)) (omega arith)
                    (omega arith))
                  (feed-header fl true (crc / 256) payload r₅ raw'' s refl
                    (omega (
                      arith,
                      b_size,
                      length-set b 2 l₀,
                      length-set r₃.buf 3 l₁,
                      length-set r₄.buf 4 (crc % 256),
                    ))
                    (ap (λ (buf : List ℕ). u2 buf 2) header ∙ ap some (omega arith)) short
                    (ap
                        (λ (buf : List ℕ).
                          decode_ch fl (record raw { len = length payload; buf = buf; nbyte = 0 })
                            true)
                        (ap (λ (buf : List ℕ). write_at buf 6 payload) header
                          ∙ write_at-append (0x5a ∷ 0xa5 ∷ word2 (length payload) (word2 crc []))
                              rest payload 6 refl (omega arith))
                      ∙ decoded))))),
      )
