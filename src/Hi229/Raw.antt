-- ===== src/Hi229/Raw.antt =====
-- The data of lib/hi229/hi229_serial.h, and the reads at a place of the message buffer.
use rfmarkit_esp_node.Base.{ℕ, ◌+◌, ◌-◌, ◌*◌, Option, some, List, get_elem?, ltb, if◌then◌else◌}
use rfmarkit_esp_node.Base.OptionDo.{◌>>=◌}
use rfmarkit_esp_node.Base.Int.{ℤ, pos, negsuc}

-- `MAXRAWLEN`, `CH_HDR_SIZE`
abbrev pub max_raw_len : ℕ
max_raw_len = 512

abbrev pub hdr_size : ℕ
hdr_size = 6

-- What the parser does with floats: read one from its bit pattern, divide an integer.
pub record FloatOps (F : Type 0) : Type 0 where
  pub of_bits : ℕ → F
  pub quotient : ℤ → ℕ → F

-- `ch_imu_data_t`
pub record ImuData (F : Type 0) : Type 0 where
  pub id : ℕ
  pub acc : F × F × F
  pub gyr : F × F × F
  pub mag : F × F × F
  pub eul : F × F × F
  pub quat : F × F × F × F
  pub pressure : F
  pub timestamp : ℕ

-- `raw_t`; `imu` is the one entry of `imu[MAX_NODE_SIZE]`.
pub record Raw (F : Type 0) : Type 0 where
  pub nbyte : ℕ
  pub len : ℕ
  pub buf : List ℕ
  pub gwid : ℕ
  pub nimu : ℕ
  pub imu : ImuData F
  pub item_code : List ℕ
  pub nitem_code : ℕ

-- `U1`, `U2`, `U4` at index p of the buffer, on a little-endian machine; `none` out of range.
abbrev pub u1 : List ℕ → ℕ → Option ℕ
u1 buf p = get_elem? buf p

unfoldable pub u2 : List ℕ → ℕ → Option ℕ
u2 buf p = do a ← get_elem? buf p; b ← get_elem? buf (p + 1); some (a + b * 256)

unfoldable pub u4 : List ℕ → ℕ → Option ℕ
unfolding u2
u4 buf p = do lo ← u2 buf p; hi ← u2 buf (p + 2); some (lo + hi * 65536)

-- a 16-bit pattern as an `int16_t`
unfoldable pub int16 : ℕ → ℤ
int16 u = if ltb u 32768 then pos u else negsuc (65535 - u)

module _ {F : Type 0} (fl : FloatOps F) where
  -- `R4`
  unfoldable pub r4 : List ℕ → ℕ → Option F
  r4 buf p = do u ← u4 buf p; some (fl.of_bits u)

  -- `(float)I2(p) / k`
  unfoldable pub i2_over : List ℕ → ℕ → ℕ → Option F
  unfolding int16
  i2_over buf p k = do u ← u2 buf p; some (fl.quotient (int16 u) k)

  -- three `I2` in a row, over three divisors
  unfoldable pub i2_vector : List ℕ → ℕ → ℕ → ℕ → ℕ → Option (F × F × F)
  unfolding i2_over
  i2_vector buf p k₀ k₁ k₂ = do
    x ← i2_over buf p k₀
    y ← i2_over buf (p + 2) k₁
    z ← i2_over buf (p + 4) k₂
    some (x, y, z)

  -- three `R4` in a row, and four
  unfoldable pub r4_vector : List ℕ → ℕ → Option (F × F × F)
  unfolding r4
  r4_vector buf p = do x ← r4 buf p; y ← r4 buf (p + 4); z ← r4 buf (p + 8); some (x, y, z)

  unfoldable pub r4_quaternion : List ℕ → ℕ → Option (F × F × F × F)
  unfolding r4
  r4_quaternion buf p = do
    w ← r4 buf p
    x ← r4 buf (p + 4)
    y ← r4 buf (p + 8)
    z ← r4 buf (p + 12)
    some (w, x, y, z)
