-- ===== src/Hi229/Crc.antt =====
-- The checksum of the serial protocol (`crc16_update` of lib/hi229/hi229_serial.c). Its local `crc` is
-- a `uint32_t` that is never cut to 16 bits while the loops run.
pub mod Reference
pub mod Detect
use rfmarkit_esp_node.Base.{
  ℕ, zero, suc, ◌*◌, ◌%◌, ◌^◌, bit_and, bit_xor, Bool, not, ◌==◌, if◌then◌else◌, List, [], ◌∷◌,
}

-- one round of the inner loop
unfoldable pub crc_round : ℕ → ℕ
crc_round crc =
    let temp = crc * 2 % 2 ^ 32 in
    if not (bit_and crc 0x8000 == 0) then bit_xor temp 0x1021 else temp

-- the inner loop, `i` rounds left
unfoldable pub crc_rounds : ℕ → ℕ → ℕ
crc_rounds zero crc = crc
crc_rounds (suc i) crc = crc_rounds i (crc_round crc)

-- the outer loop, over the bytes of `src`
unfoldable pub crc_bytes : ℕ → List ℕ → ℕ
crc_bytes crc [] = crc
crc_bytes crc (byte ∷ src) = crc_bytes (crc_rounds 8 (bit_xor crc (byte * 2 ^ 8 % 2 ^ 32))) src

-- `crc16_update(&crc, src, len)`: the new value of `crc`, for the `len` bytes of the list
unfoldable pub crc16_update : ℕ → List ℕ → ℕ
unfolding crc_bytes crc_rounds crc_round
crc16_update crc src = crc_bytes crc src % 2 ^ 16
