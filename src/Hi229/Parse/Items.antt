-- ===== src/Hi229/Parse/Items.antt =====
-- The items of the serial protocol as data: how a sensor lays them out in a payload, and what each
-- means for the IMU data.
use rfmarkit_esp_node.Base.{ℕ, ◌/◌, ◌%◌, ◌<◌, List, [], ◌∷◌}
use rfmarkit_esp_node.Hi229.Raw.{FloatOps, ImuData, int16}

-- Three or four words of the protocol.
abbrev pub Triple : Type 0
Triple = ℕ × ℕ × ℕ

abbrev pub Quad : Type 0
Quad = ℕ × ℕ × ℕ × ℕ

-- The words of the item that carries all quantities (code 0x91).
pub record Solution : Type 0 where
  pub id : ℕ
  pub reserved : ℕ × ℕ
  pub pressure : ℕ
  pub timestamp : ℕ
  pub acc : Triple
  pub gyr : Triple
  pub mag : Triple
  pub eul : Triple
  pub quat : Quad

pub data Item : Type 0 where
  id : ℕ → Item
  acc gyr mag eul : Triple → Item
  quat : Quad → Item
  pressure : ℕ → Item
  solution : Solution → Item

-- little-endian words before a rest
abbrev pub word2 : ℕ → List ℕ → List ℕ
word2 w rest = w % 256 ∷ w / 256 ∷ rest

abbrev pub word4 : ℕ → List ℕ → List ℕ
word4 w rest = word2 (w % 65536) (word2 (w / 65536) rest)

abbrev pub triple2 : Triple → List ℕ → List ℕ
triple2 (x, y, z) rest = word2 x (word2 y (word2 z rest))

abbrev pub triple4 : Triple → List ℕ → List ℕ
triple4 (x, y, z) rest = word4 x (word4 y (word4 z rest))

abbrev pub quad4 : Quad → List ℕ → List ℕ
quad4 (w, x, y, z) rest = word4 w (word4 x (word4 y (word4 z rest)))

abbrev pub encode_solution : Solution → List ℕ → List ℕ
encode_solution s rest =
    0x91
    ∷ s.id
    ∷ s.reserved.0
    ∷ s.reserved.1
    ∷ word4 s.pressure (
        word4 s.timestamp
          (triple4 s.acc (triple4 s.gyr (triple4 s.mag (triple4 s.eul (quad4 s.quat rest))))))

-- The bytes of an item, before the bytes of a rest.
unfoldable pub encode : Item → List ℕ → List ℕ
encode (id b) rest = 0x90 ∷ b ∷ rest
encode (acc v) rest = 0xa0 ∷ triple2 v rest
encode (gyr v) rest = 0xb0 ∷ triple2 v rest
encode (mag v) rest = 0xc0 ∷ triple2 v rest
encode (eul v) rest = 0xd0 ∷ triple2 v rest
encode (quat q) rest = 0xd1 ∷ quad4 q rest
encode (pressure w) rest = 0xf0 ∷ word4 w rest
encode (solution s) rest = encode_solution s rest

unfoldable pub encode_all : List Item → List ℕ → List ℕ
encode_all [] rest = rest
encode_all (x ∷ xs) rest = encode x (encode_all xs rest)

-- the code of an item, and its number of bytes
unfoldable pub code_of : Item → ℕ
code_of (id b) = 0x90
code_of (acc v) = 0xa0
code_of (gyr v) = 0xb0
code_of (mag v) = 0xc0
code_of (eul v) = 0xd0
code_of (quat q) = 0xd1
code_of (pressure w) = 0xf0
code_of (solution s) = 0x91

unfoldable pub bytes_of : Item → ℕ
bytes_of (id b) = 2
bytes_of (quat q) = 17
bytes_of (pressure w) = 5
bytes_of (solution s) = 76
bytes_of _ = 7

-- The words are in the range of their width.
abbrev pub Within : ℕ → Triple → Type 0
Within m v = (v.0 < m) × (v.1 < m) × (v.2 < m)

abbrev pub QuadWithin : ℕ → Quad → Type 0
QuadWithin m v = (v.0 < m) × (v.1 < m) × (v.2 < m) × (v.3 < m)

pub record IsSolution (s : Solution) : Type 0 where
  pub words : (s.pressure < 4294967296) × (s.timestamp < 4294967296)
  pub vectors :
      Within 4294967296 s.acc
      × Within 4294967296 s.gyr
      × Within 4294967296 s.mag
      × Within 4294967296 s.eul
  pub rotation : QuadWithin 4294967296 s.quat

abbrev pub IsItem : Item → Type 0
IsItem (id b) = b < 256
IsItem (quat q) = QuadWithin 4294967296 q
IsItem (pressure w) = w < 4294967296
IsItem (solution s) = IsSolution s
IsItem (acc v) = Within 65536 v
IsItem (gyr v) = Within 65536 v
IsItem (mag v) = Within 65536 v
IsItem (eul v) = Within 65536 v

abbrev pub AllItems : List Item → Type 0
AllItems [] = Unit {0}
AllItems (x ∷ xs) = IsItem x × AllItems xs

module _ {F : Type 0} (fl : FloatOps F) where
  -- a signed word over a scale
  abbrev pub scaled : ℕ → ℕ → F
  scaled w k = fl.quotient (int16 w) k

  abbrev pub scaled_triple : Triple → ℕ → ℕ → ℕ → F × F × F
  scaled_triple v a b c = (scaled v.0 a, scaled v.1 b, scaled v.2 c)

  abbrev pub floats : Triple → F × F × F
  floats v = (fl.of_bits v.0, fl.of_bits v.1, fl.of_bits v.2)

  abbrev pub float_quad : Quad → F × F × F × F
  float_quad v = (fl.of_bits v.0, fl.of_bits v.1, fl.of_bits v.2, fl.of_bits v.3)

  abbrev pub solution_data : Solution → ImuData F
  solution_data s = record {
    id = s.id;
    acc = floats s.acc;
    gyr = floats s.gyr;
    mag = floats s.mag;
    eul = floats s.eul;
    quat = float_quad s.quat;
    pressure = fl.of_bits s.pressure;
    timestamp = s.timestamp;
  }

  -- What an item says of the IMU: it sets its own quantity, in g, deg/s, uT or degrees, and keeps
  -- the others.
  unfoldable pub apply : Item → ImuData F → ImuData F
  apply (id b) d = record d { id = b }
  apply (acc v) d = record d { acc = scaled_triple v 1000 1000 1000 }
  apply (gyr v) d = record d { gyr = scaled_triple v 10 10 10 }
  apply (mag v) d = record d { mag = scaled_triple v 10 10 10 }
  apply (eul v) d = record d { eul = scaled_triple v 100 100 10 }
  apply (quat q) d = record d { quat = float_quad q }
  apply (pressure w) d = record d { pressure = fl.of_bits w }
  apply (solution s) d = solution_data s

  unfoldable pub apply_all : List Item → ImuData F → ImuData F
  apply_all [] d = d
  apply_all (x ∷ xs) d = apply_all xs (apply x d)
