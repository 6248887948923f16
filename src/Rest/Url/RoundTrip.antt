-- ===== src/Rest/Url/RoundTrip.antt =====
-- Texts as they may stand in an address, and `url_decode_copyn` of components/rest_controller on them.
use rfmarkit_esp_node.Base.{
  ℕ, suc, ◌+◌, ◌-◌, ◌*◌, ◌<◌, ◌≡◌, ◌≢◌, refl, ap, ◌∙◌, arith, Bool, Option, some, List, [], ◌∷◌,
  map, length, ltb, ◌==◌, if◌then◌else◌,
}
use rfmarkit_esp_node.Base.OptionDo.{◌>>=◌}
use rfmarkit_esp_node.Rest.Url.{hex_value, from_first, strtol16, then_write, url_decode_copyn}

-- One byte of the text as it may stand in an address.
pub data Piece : Type 0 where
  literal : ℕ → Piece
  escape : (lower : Bool) (high low : ℕ) → Piece
  plus : Piece

unfoldable pub hex_digit : Bool → ℕ → ℕ
hex_digit lower n = if ltb n 10 then 48 + n else if lower then 87 + n else 55 + n

unfoldable pub encode : List Piece → List ℕ
unfolding hex_digit
encode [] = []
encode (literal c ∷ ps) = c ∷ encode ps
encode (escape lower high low ∷ ps) = 37 ∷ hex_digit lower high ∷ hex_digit lower low ∷ encode ps
encode (plus ∷ ps) = 43 ∷ encode ps

unfoldable pub value : Piece → ℕ
value (literal c) = c
value (escape lower high low) = high * 16 + low
value plus = 32

abbrev pub IsPiece : Piece → Type 0
IsPiece (literal c) = (c ≢ 37) × (c ≢ 43)
IsPiece (escape lower high low) = (high < 16) × (low < 16)
IsPiece plus = Unit {0}

abbrev pub AllPieces : List Piece → Type 0
AllPieces [] = Unit {0}
AllPieces (p ∷ ps) = IsPiece p × AllPieces ps

hex_value-hex_digit : (lower : Bool) (n : ℕ) → n < 16 → hex_value (hex_digit lower n) ≡ some n
unfolding hex_value hex_digit
hex_value-hex_digit lower n h = ground arith

strtol16-hex_digit :
    (lower : Bool) (high low : ℕ)
    → high < 16
    → low < 16
    → strtol16 (hex_digit lower high) (hex_digit lower low) ≡ high * 16 + low
unfolding strtol16 from_first
strtol16-hex_digit lower high low h h' = λ i.
    from_first (hex_value-hex_digit lower high h i) (hex_value-hex_digit lower low h' i)
      (hex_digit lower high) (hex_digit lower low)

written :
    (c : ℕ) (rest : Option (List ℕ)) (out : List ℕ)
    → rest ≡ some out
    → then_write c rest ≡ some (c ∷ out)
unfolding then_write
written c rest out h = ap (λ (o : Option (List ℕ)). o >>= λ l. some (c ∷ l)) h

decode-literal :
    (c : ℕ) (cs : List ℕ) (size : ℕ) (out : List ℕ)
    → c ≢ 37
    → url_decode_copyn cs size ≡ some out
    → url_decode_copyn (c ∷ cs) (suc size) ≡ some ((if c == 43 then 32 else c) ∷ out)
unfolding url_decode_copyn
decode-literal c [] size out h rest = ground arith
decode-literal c (a ∷ []) size out h rest =
    ground (arith, written (if c == 43 then 32 else c) _ out rest)
decode-literal c (a ∷ b ∷ cs) size out h rest =
    ground (arith, written (if c == 43 then 32 else c) _ out rest)

decode-escape :
    (a b : ℕ) (cs : List ℕ) (size : ℕ) (out : List ℕ)
    → url_decode_copyn cs (size - 2) ≡ some out
    → url_decode_copyn (37 ∷ a ∷ b ∷ cs) (suc size) ≡ some (strtol16 a b ∷ out)
unfolding url_decode_copyn
decode-escape a b cs size out rest = written (strtol16 a b) _ out rest

decode-nil : (size : ℕ) → url_decode_copyn [] size ≡ some []
unfolding url_decode_copyn
decode-nil size = refl

-- A text encoded byte by byte, each byte as itself (but for `%` and `+`), as an escape with digits of either
-- case or, if it is a space, as `+`, is decoded to the text.
pub url_decode_copyn-encode :
    (ps : List Piece)
    → AllPieces ps
    → url_decode_copyn (encode ps) (length (encode ps)) ≡ some (map value ps)
unfolding encode value
url_decode_copyn-encode [] h = decode-nil 0
url_decode_copyn-encode (literal c ∷ ps) h =
    decode-literal c (encode ps) (length (encode ps)) (map value ps) h.0.0
      (url_decode_copyn-encode ps h.1)
    ∙ ap (λ (x : ℕ). some (x ∷ map value ps)) (ground (arith, h.0.1))
url_decode_copyn-encode (plus ∷ ps) h =
    decode-literal 43 (encode ps) (length (encode ps)) (map value ps) (omega arith)
      (url_decode_copyn-encode ps h.1)
url_decode_copyn-encode (escape lower high low ∷ ps) h =
    decode-escape (hex_digit lower high) (hex_digit lower low) (encode ps)
      (suc (suc (length (encode ps)))) (map value ps)
      (ap (url_decode_copyn (encode ps)) (omega arith) ∙ url_decode_copyn-encode ps h.1)
    ∙ ap (λ (x : ℕ). some (x ∷ map value ps)) (strtol16-hex_digit lower high low h.0.0 h.0.1)
