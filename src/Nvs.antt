-- ===== src/Nvs.antt =====
-- components/sys/nvs_mgmt.c: the variables in flash, their lookup by name and the limits of the loaded values. A C
-- string is the list of its bytes before the terminator.
pub mod Lookup
pub mod Limits
pub mod Load
pub mod Boot
pub mod Texts
pub mod Example
mod Tests
use rfmarkit_esp_node.Base.{
  ℕ, zero, suc, ◌+◌, Bool, true, false, ◌&&◌, ◌||◌, Option, none, some, List, [], ◌∷◌, length, ltb,
  ◌==◌, if◌then◌else◌,
}
use rfmarkit_esp_node.Base.Text.{strtol10}
use rfmarkit_esp_node.Base.Int.{ℤ, pos, negsuc, leb_ℤ, ltb_ℤ}

-- Whether `strncmp` of two strings is 0.
unfoldable pub strncmp_is_0 : List ℕ → List ℕ → ℕ → Bool
strncmp_is_0 xs ys zero = true
strncmp_is_0 [] [] (suc n) = true
strncmp_is_0 [] (y ∷ ys) (suc n) = false
strncmp_is_0 (x ∷ xs) [] (suc n) = false
strncmp_is_0 (x ∷ xs) (y ∷ ys) (suc n) = (x == y) && strncmp_is_0 xs ys n

-- `MAX` on lengths
unfoldable pub longer : ℕ → ℕ → ℕ
longer a b = if ltb a b then b else a

-- `sys_find_var` on the names of a table: the index of the entry, from a first index on
unfoldable pub sys_find_var : List (List ℕ) → ℕ → List ℕ → ℕ → Option ℕ
unfolding strncmp_is_0 longer
sys_find_var [] idx name len = none
sys_find_var (entry ∷ table) idx name len =
    let rest = sys_find_var table (idx + 1) name len in
    if strncmp_is_0 name entry (longer (length entry) len) then some idx else rest

-- `MIN` and `MAX` on 32-bit values
unfoldable pub min_int32 : ℤ → ℤ → ℤ
min_int32 a b = if ltb_ℤ a b then a else b

unfoldable pub max_int32 : ℤ → ℤ → ℤ
max_int32 a b = if ltb_ℤ a b then b else a

-- the limits of `g_mcu.seq` in `sys_load_nvs_configuration`
unfoldable pub limit_seq : ℤ → ℤ
unfolding min_int32 max_int32
limit_seq seq = max_int32 (min_int32 seq (pos 255)) (pos 0)

-- the limits of `g_mcu.target_fps`, with `CONFIG_MAX_FPS` and `CONFIG_TARGET_FPS`
unfoldable pub limit_target_fps : ℕ → ℕ → ℤ → ℤ
unfolding min_int32 max_int32
limit_target_fps max_fps target_fps fps =
    let fps' = max_int32 fps (pos 0) in
    min_int32 (if ltb_ℤ (pos max_fps) fps' || leb_ℤ fps' (pos 0) then pos target_fps else fps')
      (pos max_fps)

-- `mcu_var_type_t`, as far as a variable has it
pub data VarType : Type 0 where
  var_int32 var_str : VarType

abbrev pub wifi_ssid_name : List ℕ
wifi_ssid_name = b'W' ∷ b'I' ∷ b'F' ∷ b'I' ∷ b'_' ∷ b'S' ∷ b'S' ∷ b'I' ∷ b'D' ∷ []

abbrev pub wifi_psk_name : List ℕ
wifi_psk_name = b'W' ∷ b'I' ∷ b'F' ∷ b'I' ∷ b'_' ∷ b'P' ∷ b'S' ∷ b'K' ∷ []

abbrev pub data_host_name : List ℕ
data_host_name = b'D' ∷ b'A' ∷ b'T' ∷ b'A' ∷ b'_' ∷ b'H' ∷ b'O' ∷ b'S' ∷ b'T' ∷ []

abbrev pub ota_host_name : List ℕ
ota_host_name = b'O' ∷ b'T' ∷ b'A' ∷ b'_' ∷ b'H' ∷ b'O' ∷ b'S' ∷ b'T' ∷ []

abbrev pub ntp_host_name : List ℕ
ntp_host_name = b'N' ∷ b'T' ∷ b'P' ∷ b'_' ∷ b'H' ∷ b'O' ∷ b'S' ∷ b'T' ∷ []

abbrev pub test_name : List ℕ
test_name = b'T' ∷ b'E' ∷ b'S' ∷ b'T' ∷ []

abbrev pub imu_baud_name : List ℕ
imu_baud_name = b'I' ∷ b'M' ∷ b'U' ∷ b'_' ∷ b'B' ∷ b'A' ∷ b'U' ∷ b'D' ∷ []

abbrev pub seq_name : List ℕ
seq_name = b'S' ∷ b'E' ∷ b'Q' ∷ []

abbrev pub target_fps_name : List ℕ
target_fps_name = b'T' ∷ b'A' ∷ b'R' ∷ b'G' ∷ b'E' ∷ b'T' ∷ b'_' ∷ b'F' ∷ b'P' ∷ b'S' ∷ []

-- `g_mcu_vars`: the names and the types
abbrev pub var_names : List (List ℕ)
var_names =
    wifi_ssid_name ∷ wifi_psk_name ∷ data_host_name ∷ ota_host_name ∷ ntp_host_name ∷ test_name
    ∷ imu_baud_name ∷ seq_name ∷ target_fps_name ∷ []

unfoldable pub var_type : ℕ → VarType
var_type index = if ltb index 5 then var_str else var_int32

-- What a call of the flash library stores: an integer, or the text in a block of 64 bytes.
pub data Stored : Type 0 where
  int32 : ℤ → Stored
  blob : List ℕ → Stored

-- the value that `sys_set_nvs_var` stores for a variable
unfoldable pub stored_value : VarType → List ℕ → Stored
unfolding strtol10
stored_value var_int32 value = int32 (strtol10 value).0
stored_value var_str value = blob value
