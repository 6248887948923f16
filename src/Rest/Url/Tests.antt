-- ===== src/Rest/Url/Tests.antt =====
-- The theorem on the decoder of components/rest_controller at a concrete text, and runs of the parser.
use Prim.{tt}
use rfmarkit_esp_node.Base.{◌≡◌, arith, true, some, List, [], ◌∷◌, map, length}
use rfmarkit_esp_node.Rest.Url.{url_decode_copyn}
use rfmarkit_esp_node.Rest.Url.RoundTrip.{
  Piece, literal, escape, plus, encode, value, url_decode_copyn-encode,
}

-- a+%2fB
abbrev pieces : List Piece
pieces = literal 97 ∷ plus ∷ escape true 2 15 ∷ literal 66 ∷ []

url_decode_copyn-encode_example :
    url_decode_copyn (encode pieces) (length (encode pieces)) ≡ some (map value pieces)
url_decode_copyn-encode_example = url_decode_copyn-encode pieces (
  (omega arith, omega arith),
  (tt, ((omega arith, omega arith), ((omega arith, omega arith), tt))),
)
