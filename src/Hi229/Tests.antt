-- ===== src/Hi229/Tests.antt =====
-- The theorems on lib/hi229/hi229_serial.c at concrete frames. Floats are their bit patterns.
use Prim.{tt}
use rfmarkit_esp_node.Base.{
  ℕ, suc, ap, get_elem?, ◌+◌, ◌≡◌, ◌≢◌, refl, arith, List, [], ◌∷◌, ◌++◌, replicate,
}
use rfmarkit_esp_node.Base.Outcome.{undefined}
use rfmarkit_esp_node.Hi229.Raw.{FloatOps, ImuData, Raw}
use rfmarkit_esp_node.Hi229.Crc.{crc16_update}
use rfmarkit_esp_node.Hi229.Crc.Reference.{crc16, crc16_update-eq-crc16}
use rfmarkit_esp_node.Hi229.Crc.Detect.{crc16_update_detects}
use rfmarkit_esp_node.Hi229.Parse.{parse_data}
use rfmarkit_esp_node.Hi229.Parse.Items.{Item, bytes_of, id, encode, encode_all}
use rfmarkit_esp_node.Hi229.Parse.Payload.{bytes_all}
use rfmarkit_esp_node.Hi229.Parse.Overflow.{parse_data-overflow}

abbrev bits : FloatOps ℕ
bits = record { of_bits = λ u. u; quotient = λ i k. k }

abbrev no_data : ImuData ℕ
no_data = record {
  id = 0;
  acc = (0, 0, 0);
  gyr = (0, 0, 0);
  mag = (0, 0, 0);
  eul = (0, 0, 0);
  quat = (0, 0, 0, 0);
  pressure = 0;
  timestamp = 0;
}

abbrev nine_items : List Item
nine_items = id 1 ∷ id 2 ∷ id 3 ∷ id 4 ∷ id 5 ∷ id 6 ∷ id 7 ∷ id 8 ∷ id 9 ∷ []

abbrev header_bytes : List ℕ
header_bytes = 0x5a ∷ 0xa5 ∷ 9 ∷ 0 ∷ 0 ∷ 0 ∷ []

abbrev frame_of : List Item → ℕ → Raw ℕ
frame_of items len = record {
  nbyte = 0;
  len = len;
  buf = header_bytes ++ encode_all items (0 ∷ 0 ∷ []);
  gwid = 0;
  nimu = 0;
  imu = no_data;
  item_code = replicate 8 0;
  nitem_code = 0;
}

abbrev six_more : ℕ → ℕ
six_more k = suc (suc (suc (suc (suc (suc k)))))

parse_data-overflow_example : parse_data bits (frame_of nine_items 18) ≡ undefined
unfolding encode_all encode bytes_all bytes_of
parse_data-overflow_example =
    parse_data-overflow bits (id 1 ∷ id 2 ∷ id 3 ∷ id 4 ∷ id 5 ∷ id 6 ∷ id 7 ∷ id 8 ∷ []) (id 9) []
      (0 ∷ 0 ∷ []) (frame_of nine_items 18)
      (λ k. ap (get_elem? (frame_of nine_items 18).buf) {x = 6 + k} {y = six_more k} (omega arith))
      refl refl

crc16_update-eq-crc16_example : crc16_update 0 (0x31 ∷ 0x32 ∷ []) ≡ crc16 0 (0x31 ∷ 0x32 ∷ [])
crc16_update-eq-crc16_example =
    crc16_update-eq-crc16 0 (0x31 ∷ 0x32 ∷ []) (omega arith) (omega arith, (omega arith, tt))

crc16_update_detects_example : crc16_update 0 (1 ∷ 2 ∷ 3 ∷ []) ≢ crc16_update 0 (1 ∷ 4 ∷ 3 ∷ [])
crc16_update_detects_example =
    crc16_update_detects (1 ∷ []) (3 ∷ []) 2 4 (omega arith, tt) (omega arith, tt) (omega arith)
      (omega arith) (omega arith)
