-- ===== src/Hi229/Input/Packets.antt =====
-- A serial stream of frames, damaged frames and stray bytes through `ch_serial_input`.
use rfmarkit_esp_node.Base.{
  ℕ, suc, ◌+◌, ◌≤◌, ◌<◌, ◌≡◌, ◌≢◌, refl, sym, ap, ◌∙◌, arith, List, [], ◌∷◌, ◌++◌, length,
  length-append,
}
use rfmarkit_esp_node.Hi229.Raw.{FloatOps, ImuData}
use rfmarkit_esp_node.Hi229.Crc.{crc16_update}
use rfmarkit_esp_node.Hi229.Crc.Reference.{AllBytes, crc16, crc16_update-eq-crc16}
use rfmarkit_esp_node.Hi229.Crc.Detect.{crc16_differs, AllBytes-append}
use rfmarkit_esp_node.Hi229.Parse.Items.{
  Item, id, quat, pressure, solution, encode, encode_all, bytes_of, word2, apply_all,
}
use rfmarkit_esp_node.Hi229.Parse.Payload.{bytes_all}
use rfmarkit_esp_node.Hi229.Input.{Status, no_message, message, error}
use rfmarkit_esp_node.Hi229.Input.Steps.{ends_with}
use rfmarkit_esp_node.Hi229.Input.Frame.{checksum, frame}

-- What stands in the stream: the frame of a reading; a frame of which one byte of the payload has changed from x to y
-- on the way; a stray byte.
pub data Packet : Type 0 where
  reading : List Item → Packet
  damaged : (pre : List ℕ) (x y : ℕ) (post : List ℕ) → Packet
  stray : ℕ → Packet

unfoldable pub bytes : Packet → List ℕ
unfolding frame checksum encode_all encode
bytes (reading items) = frame (encode_all items []) (checksum (encode_all items []))
bytes (damaged pre x y post) = frame (pre ++ y ∷ post) (checksum (pre ++ x ∷ post))
bytes (stray b) = b ∷ []

-- A reading has at most 8 items, which fit into a frame; a stray byte is not the first sync byte.
abbrev pub IsPacket : Packet → Type 0
IsPacket (reading items) = (length items ≤ 8) × (bytes_all items ≤ 506)
IsPacket (damaged pre x y post) =
    AllBytes pre
    × AllBytes post
    × (x < 256)
    × (y < 256)
    × (x ≢ y)
    × (length (pre ++ y ∷ post) ≤ 506)
IsPacket (stray b) = b ≢ 0x5a

abbrev pub AllPackets : List Packet → Type 0
AllPackets [] = Unit {0}
AllPackets (p ∷ ps) = IsPacket p × AllPackets ps

unfoldable pub stream : List Packet → List ℕ
unfolding bytes
stream [] = []
stream (p ∷ ps) = bytes p ++ stream ps

-- The last byte of a reading brings a message, that of a damaged frame an error; all other bytes bring nothing.
unfoldable pub statuses : Packet → List Status
unfolding encode_all encode
statuses (reading items) =
    let payload = encode_all items [] in
    no_message ∷ no_message ∷ no_message ∷ no_message ∷ no_message ∷ ends_with payload message
statuses (damaged pre x y post) =
    no_message
    ∷ no_message
    ∷ no_message
    ∷ no_message
    ∷ no_message
    ∷ ends_with (pre ++ y ∷ post) error
statuses (stray b) = no_message ∷ []

unfoldable pub statuses_all : List Packet → List Status
unfolding statuses
statuses_all [] = []
statuses_all (p ∷ ps) = statuses p ++ statuses_all ps

-- The items of the readings, in order.
unfoldable pub items_of : List Packet → List Item
items_of [] = []
items_of (reading items ∷ ps) = items ++ items_of ps
items_of (damaged pre x y post ∷ ps) = items_of ps
items_of (stray b ∷ ps) = items_of ps

encode-append : (x : Item) (r rest : List ℕ) → encode x r ++ rest ≡ encode x (r ++ rest)
unfolding encode
encode-append (id b) r rest = refl
encode-append (quat q) r rest = refl
encode-append (pressure w) r rest = refl
encode-append (solution s) r rest = refl
encode-append _ r rest = refl

pub encode_all-append :
    (xs : List Item) (rest : List ℕ) → encode_all xs [] ++ rest ≡ encode_all xs rest
unfolding encode_all
encode_all-append [] rest = refl
encode_all-append (x ∷ xs) rest =
    encode-append x (encode_all xs []) rest ∙ ap (encode x) (encode_all-append xs rest)

length-encode : (x : Item) (r : List ℕ) → length (encode x r) ≡ bytes_of x + length r
unfolding encode bytes_of
length-encode (id b) r = omega arith
length-encode (quat q) r = omega arith
length-encode (pressure w) r = omega arith
length-encode (solution s) r = omega arith
length-encode _ r = omega arith

pub length-encode_all : (xs : List Item) → length (encode_all xs []) ≡ bytes_all xs
unfolding encode_all bytes_all
length-encode_all [] = refl
length-encode_all (x ∷ xs) = omega (arith, length-encode x (encode_all xs []), length-encode_all xs)

length-append_ne :
    (pre post : List ℕ) (x y : ℕ) → length (pre ++ x ∷ post) ≡ length (pre ++ y ∷ post)
length-append_ne pre post x y =
    omega (arith, length-append {0} pre (x ∷ post), length-append {0} pre (y ∷ post))

abbrev pub six_more : ℕ → ℕ
six_more k = suc (suc (suc (suc (suc (suc k)))))

-- The register after the first four bytes of the header.
start : ℕ → ℕ
start len = crc16_update 0 (0x5a ∷ 0xa5 ∷ word2 len [])

start-lt : (len : ℕ) → start len < 65536
unfolding start crc16_update
start-lt len = omega arith

-- The checksum of a payload with one changed byte is another.
pub checksum-damaged :
    (pre post : List ℕ) (x y : ℕ)
    → AllBytes pre
    → AllBytes post
    → x < 256
    → y < 256
    → x ≢ y
    → checksum (pre ++ y ∷ post) ≢ checksum (pre ++ x ∷ post)
unfolding checksum start
checksum-damaged pre post x y hpre hpost hx hy ne e =
    crc16_differs s pre post y x (start-lt (length (pre ++ y ∷ post))) hpre hpost hy hx
      (λ d. ne (sym d))
      (sym (code y hy)
        ∙ e
        ∙ ap (λ (l : ℕ). crc16_update (start l) (pre ++ x ∷ post)) (length-append_ne pre post x y)
        ∙ code x hx)
  where
    s : ℕ
    s = start (length (pre ++ y ∷ post))

    code : (z : ℕ) → z < 256 → crc16_update s (pre ++ z ∷ post) ≡ crc16 s (pre ++ z ∷ post)
    code z hz =
        crc16_update-eq-crc16 s (pre ++ z ∷ post) (start-lt (length (pre ++ y ∷ post)))
          (AllBytes-append pre (z ∷ post) hpre (hz, hpost))

pub apply_all-append :
    {F : Type 0} (fl : FloatOps F) (xs ys : List Item) (d : ImuData F)
    → apply_all fl (xs ++ ys) d ≡ apply_all fl ys (apply_all fl xs d)
unfolding apply_all
apply_all-append fl [] ys d = refl
apply_all-append fl (x ∷ xs) ys d = apply_all-append fl xs ys _
