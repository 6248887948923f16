-- ===== src/Rest/Url.antt =====
-- `url_decode_copyn` and `parse_url_kv_pair` of components/rest_controller/rest_controller_handlers.c.
pub mod RoundTrip
mod Tests
use rfmarkit_esp_node.Base.{
  ℕ, zero, suc, ◌+◌, ◌-◌, ◌*◌, ◌%◌, Bool, true, false, ◌&&◌, ◌||◌, Option, none, some, List, [],
  ◌∷◌, length, take, drop, leb, ltb, ◌==◌, if◌then◌else◌,
}
use rfmarkit_esp_node.Base.OptionDo.{◌>>=◌}
use rfmarkit_esp_node.Base.Text.{c_text}
use rfmarkit_esp_node.Esp.{EspErr, ok, invalid_arg, not_found}

-- The value of a hexadecimal digit.
unfoldable pub hex_value : ℕ → Option ℕ
hex_value c =
    if leb 48 c && leb c 57
    then some (c - 48)
    else if leb 65 c && leb c 70
    then some (c - 55)
    else if leb 97 c && leb c 102
    then some (c - 87)
    else none

unfoldable pub value_or_zero : Option ℕ → ℕ
value_or_zero none = 0
value_or_zero (some n) = n

unfoldable pub is_space : ℕ → Bool
is_space c = (c == 32) || (leb 9 c && leb c 13)

-- The digits from the first of two bytes on.
unfoldable pub from_first : Option ℕ → Option ℕ → ℕ → ℕ → ℕ
unfolding value_or_zero is_space
from_first (some x) (some y) a b = x * 16 + y
from_first (some x) none a b = x
from_first none y a b =
    if is_space a || (a == 43)
    then value_or_zero y
    else if a == 45
    then (256 - value_or_zero y) % 256
    else 0

-- `strtol` with base 16 on two bytes before a terminator, as an unsigned char: white space and a sign may come
-- first, and it stops at what is no digit.
unfoldable pub strtol16 : ℕ → ℕ → ℕ
unfolding hex_value from_first
strtol16 a b = from_first (hex_value a) (hex_value b) a b

-- What the decoder writes: a byte of the result put before the rest of it.
unfoldable pub then_write : ℕ → Option (List ℕ) → Option (List ℕ)
then_write c rest = do out ← rest; some (c ∷ out)

-- `url_decode_copyn`: the bytes written before the terminator, from what is left of the string and of the size.
-- A `%` with less than two bytes after it reads on past the
-- terminator, which is undefined; the size may end inside an escape, which is still read whole.
unfoldable pub url_decode_copyn : List ℕ → ℕ → Option (List ℕ)
unfolding then_write strtol16
url_decode_copyn [] size = some []
url_decode_copyn (c ∷ cs) zero = some []
url_decode_copyn (c ∷ []) (suc size) =
    if c == 37 then none else some ((if c == 43 then 32 else c) ∷ [])
url_decode_copyn (c ∷ a ∷ []) (suc size) =
    let rest = url_decode_copyn (a ∷ []) size in
    if c == 37 then none else then_write (if c == 43 then 32 else c) rest
url_decode_copyn (c ∷ a ∷ b ∷ cs) (suc size) =
    let plain = url_decode_copyn (a ∷ b ∷ cs) size in
    let escaped = url_decode_copyn cs (size - 2) in
    if c == 37
    then then_write (strtol16 a b) escaped
    else then_write (if c == 43 then 32 else c) plain

-- `strstr`: from the first place on where the key stands.
unfoldable pub starts_with : List ℕ → List ℕ → Bool
starts_with s [] = true
starts_with [] (k ∷ ks) = false
starts_with (c ∷ cs) (k ∷ ks) = (c == k) && starts_with cs ks

unfoldable pub strstr : List ℕ → List ℕ → Option (List ℕ)
unfolding starts_with
strstr [] key = if starts_with [] key then some [] else none
strstr (c ∷ cs) key =
    let rest = strstr cs key in if starts_with (c ∷ cs) key then some (c ∷ cs) else rest

-- `strchr`, as the distance to the byte.
unfoldable pub strchr : List ℕ → ℕ → Option ℕ
strchr [] b = none
strchr (c ∷ cs) b = let rest = strchr cs b in if c == b then some 0 else do n ← rest; some (n + 1)

-- The distance to the end of the pair: to `&`, or to the end of the address.
unfoldable pub pair_end : List ℕ → ℕ
unfolding strchr
pair_end s = elim (strchr s 38) [ none ↦ length s | some n ↦ n ]

-- The decoding of a value that is not longer than 128 bytes, into a buffer of `room` bytes. The terminator is also
-- written behind the encoded length, which is undefined past the buffer.
unfoldable pub decode_value : ℕ → List ℕ → ℕ → ℕ → Option (EspErr × List ℕ)
unfolding url_decode_copyn c_text
decode_value room s eq_pos kv_end =
    let value_len = kv_end - eq_pos - 1 in
    if ltb kv_end eq_pos
    then some (invalid_arg, [])
    else if ltb 128 value_len
    then some (invalid_arg, [])
    else if leb room value_len
    then none
    else (do value ← url_decode_copyn (drop (eq_pos + 1) s) value_len; some (ok, c_text value))

-- `parse_url_kv_pair` with arguments that are not NULL, on a buffer of `room` zero bytes: the code and the text
-- in the buffer afterwards.
unfoldable pub parse_url_kv_pair : ℕ → List ℕ → List ℕ → Option (EspErr × List ℕ)
unfolding strstr strchr pair_end decode_value
parse_url_kv_pair room uri key = elim (strstr uri key) [
  | none ↦ some (not_found, [])
  | some kv_start ↦ elim (strchr kv_start 61) [
    | none ↦ some (invalid_arg, [])
    | some eq_pos ↦ decode_value room kv_start eq_pos (pair_end kv_start)
  ]
]
