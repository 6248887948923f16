-- ===== src/Sys.antt =====
-- components/sys/sys.c: the names of the node, the guard of an update, and the start and stop of the tasks.
pub mod Naming
pub mod Tasks
pub mod Accounted
pub mod Guard
mod Tests
use rfmarkit_esp_node.Base.{
  ℕ, ◌+◌, ◌/◌, ◌%◌, List, [], ◌∷◌, ◌++◌, replicate, write_at, read_at, ltb, if◌then◌else◌,
}

-- The names in `mcu_t`: `device_id`, the byte behind it, and `ble_local_name`
pub record Names : Type 0 where
  pub device_id : List ℕ
  pub device_id_sep : ℕ
  pub ble_local_name : List ℕ

-- A digit of `%x`, and a byte as `%02x`
unfoldable pub hex_digit : ℕ → ℕ
hex_digit n = if ltb n 10 then 48 + n else 87 + n

unfoldable pub hex_bytes : List ℕ → List ℕ
unfolding hex_digit
hex_bytes [] = []
hex_bytes (b ∷ bs) = hex_digit (b / 16) ∷ hex_digit (b % 16) ∷ hex_bytes bs

-- `CONFIG_BLE_LOCAL_NAME_PREFIX`, which is markit_
abbrev pub ble_local_name_prefix : List ℕ
ble_local_name_prefix = b'm' ∷ b'a' ∷ b'r' ∷ b'k' ∷ b'i' ∷ b't' ∷ b'_' ∷ []

-- The names that `sys_init_chip` sets from the address of the chip
unfoldable pub sys_init_chip : List ℕ → Names → Names
unfolding hex_bytes
sys_init_chip base_mac_addr names =
    let buf = hex_bytes base_mac_addr ++ 0 ∷ [] in
    record names {
      device_id = read_at buf 0 12;
      ble_local_name =
          write_at (write_at (replicate 32 0) 0 ble_local_name_prefix) 7 (read_at buf 0 12);
    }
