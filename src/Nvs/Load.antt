-- ===== src/Nvs/Load.antt =====
-- The loading of the variables at boot, of components/sys/nvs_mgmt.c: `sys_get_nvs_var`, the macros
-- `sys_load_str_conf`, `sys_load_int32_conf` and `sys_load_int32_conf_default`, and `sys_load_nvs_configuration`.
use rfmarkit_esp_node.Base.{
  drop, ℕ, zero, suc, Bool, false, Option, none, some, List, [], ◌∷◌, ◌++◌, length, take, ltb, ◌==◌,
  ◌≡◌, ◌≤◌, if◌then◌else◌,
}
use rfmarkit_esp_node.Base.Int.{ℤ, pos}
use rfmarkit_esp_node.Base.Outcome.{Outcome, done, undefined, ◌>>=◌}
use rfmarkit_esp_node.Nvs.{
  VarType, var_int32, var_str, Stored, int32, blob, sys_find_var, var_names, var_type, min_int32,
  max_int32, limit_seq, limit_target_fps, wifi_ssid_name, wifi_psk_name, data_host_name,
  ntp_host_name, test_name, imu_baud_name, seq_name, target_fps_name,
}
use rfmarkit_esp_node.Nvs.Lookup.{is_name}

-- The flash library of ESP-IDF, on the contents `S` of the table "var". A read of a missing key is `none`.
pub record Flash (S : Type 0) : Type 0 where
  pub get_i32 : S → List ℕ → Option ℤ
  pub set_i32 : List ℕ → ℤ → S → S
  pub get_blob : S → List ℕ → (length : ℕ) → Option (List ℕ)
  pub set_blob : List ℕ → List ℕ → S → S

-- What ESP-IDF documents of it: a key has the value that was set last, a blob is read into a buffer that is long
-- enough, and setting a key changes no other.
pub record IsFlash {S : Type 0} (fs : Flash S) : Type 0 where
  pub i32_same : (key : List ℕ) (z : ℤ) (s : S) → fs.get_i32 (fs.set_i32 key z s) key ≡ some z
  pub i32_other :
      (key other : List ℕ) (z : ℤ) (s : S)
      → is_name other key ≡ false
      → fs.get_i32 (fs.set_i32 key z s) other ≡ fs.get_i32 s other
  pub i32_blob :
      (key other : List ℕ) (z : ℤ) (s : S) (n : ℕ)
      → is_name other key ≡ false
      → fs.get_blob (fs.set_i32 key z s) other n ≡ fs.get_blob s other n
  pub blob_same :
      (key b : List ℕ) (s : S) (n : ℕ)
      → length b ≤ n
      → fs.get_blob (fs.set_blob key b s) key n ≡ some b
  pub blob_other :
      (key other b : List ℕ) (s : S) (n : ℕ)
      → is_name other key ≡ false
      → fs.get_blob (fs.set_blob key b s) other n ≡ fs.get_blob s other n
  pub blob_short :
      (key b : List ℕ) (s : S) (n : ℕ)
      → suc n ≤ length b
      → fs.get_blob (fs.set_blob key b s) key n ≡ none

-- The configuration of the build: the kind of sensor and the defaults.
pub record Defaults : Type 0 where
  pub imu_sensor_hi229 : Bool
  pub wifi_ssid : List ℕ
  pub wifi_psk : List ℕ
  pub data_host_ip_addr : List ℕ
  pub ntp_host_ip_addr : List ℕ
  pub imu_baud : ℕ
  pub max_fps : ℕ
  pub target_fps : ℕ

-- What the loading writes into `g_mcu`.
pub record Loaded : Type 0 where
  pub wifi_ssid : List ℕ
  pub wifi_psk : List ℕ
  pub data_host_ip_addr : List ℕ
  pub ntp_host_ip_addr : List ℕ
  pub imu_baud : ℤ
  pub seq : ℤ
  pub target_fps : ℤ

unfoldable pub value_or {ℓ} : {A : Type ℓ} → A → Option A → A
value_or d none = d
value_or d (some a) = a

unfoldable pub name_at : List (List ℕ) → ℕ → List ℕ
name_at [] index = []
name_at (name ∷ table) zero = name
name_at (name ∷ table) (suc index) = name_at table index

-- `strlen` and what it counts: undefined in a buffer without a terminator.
unfoldable pub c_string : List ℕ → Outcome (List ℕ)
c_string [] = undefined
c_string (c ∷ cs) =
    let rest = c_string cs >>= (λ text. done (c ∷ text)) in if c == 0 then done [] else rest

-- A blob that was read stands at the start of the buffer of 64 bytes; without one the buffer stays.
unfoldable pub read_into : ℤ → List ℕ → Option (List ℕ) → Outcome (ℤ × List ℕ)
read_into j value_buffer none = done (j, value_buffer)
read_into j value_buffer (some read) =
    let both : ℤ × List ℕ = (j, read ++ drop (length read) value_buffer) in
    if ltb 64 (length read) then undefined else done both

unfoldable pub zeros : ℕ → List ℕ
zeros zero = []
zeros (suc n) = 0 ∷ zeros n

-- `sys_set_nvs_var`: the calls of the flash library. A text is stored as the 64 bytes from its start on, with what
-- stands in memory behind its terminator.
unfoldable pub write : {S : Type 0} → Flash S → List ℕ → (behind : List ℕ) → Stored → S → S
write fs key behind (int32 z) s = fs.set_i32 key z s
write fs key behind (blob value) s = fs.set_blob key (take 64 (value ++ 0 ∷ behind)) s

-- the limits of `g_mcu.imu_baud`
unfoldable pub limit_imu_baud : ℤ → ℤ
unfolding min_int32 max_int32
limit_imu_baud imu_baud = max_int32 (min_int32 imu_baud (pos 921600)) (pos 9600)

-- `junk` and `tmp` are what the uninitialised variables `data.int32` and `tmp` of `sys_get_nvs_var` hold, which may
-- differ from one variable to the next; `print` is `snprintf` with the format of a number.
module _ {S : Type 0} (fs : Flash S) (junk : List ℕ → ℤ) (tmp : List ℕ → ℕ)
    (print : ℤ → List ℕ) where
  -- the switch of `sys_get_nvs_var`
  unfoldable pub get_value : VarType → List ℕ → S → List ℕ → Outcome (ℤ × List ℕ)
  unfolding value_or read_into
  get_value var_int32 key s value_buffer =
      let value = value_or (junk key) (fs.get_i32 s key) in done (value, print value)
  get_value var_str key s value_buffer =
      read_into (junk key) value_buffer (fs.get_blob s key (tmp key))

  -- `sys_get_nvs_var`, for a buffer of 64 bytes: the number and the buffer
  unfoldable pub sys_get_nvs_var : S → ℕ → List ℕ → Outcome (ℤ × List ℕ)
  unfolding var_type name_at get_value
  sys_get_nvs_var s index value_buffer =
      get_value (var_type index) (name_at var_names index) s value_buffer

  -- `strlen` of the buffer, and which text is copied to the target
  unfoldable pub text_or : List ℕ → ℤ × List ℕ → Outcome (List ℕ)
  unfolding c_string
  text_or default_value r =
      c_string r.1 >>= (λ text. done (if ltb 0 (length text) then text else default_value))

  unfoldable pub load_str : Option ℕ → S → List ℕ → Outcome (List ℕ)
  unfolding sys_get_nvs_var zeros text_or
  load_str none s default_value = done []
  load_str (some index) s default_value =
      sys_get_nvs_var s index (zeros 64) >>= text_or default_value

  -- `sys_load_str_conf`, where the target and the buffer are zero before
  unfoldable pub sys_load_str_conf : S → List ℕ → List ℕ → Outcome (List ℕ)
  unfolding sys_find_var load_str
  sys_load_str_conf s name default_value =
      load_str (sys_find_var var_names 0 name (length name)) s default_value

  -- `sys_load_int32_conf` and `sys_load_int32_conf_default`: the last argument is what the target has where the
  -- variable is not in the table
  unfoldable pub sys_load_int32_conf : S → List ℕ → ℤ → Outcome ℤ
  unfolding sys_find_var sys_get_nvs_var zeros
  sys_load_int32_conf s name target = elim (sys_find_var var_names 0 name (length name)) [
    | none ↦ done target
    | some index ↦ sys_get_nvs_var s index (zeros 64) >>= (λ r. done r.0)
  ]

  -- `sys_load_nvs_configuration`
  unfoldable pub sys_load_nvs_configuration : Defaults → S → Outcome Loaded
  unfolding sys_load_str_conf sys_load_int32_conf limit_seq limit_target_fps limit_imu_baud
  sys_load_nvs_configuration d s = do
    protect ← sys_load_int32_conf s test_name (pos 0)
    ssid ← sys_load_str_conf s wifi_ssid_name d.wifi_ssid
    psk ← sys_load_str_conf s wifi_psk_name d.wifi_psk
    data_host ← sys_load_str_conf s data_host_name d.data_host_ip_addr
    ntp_host ← sys_load_str_conf s ntp_host_name d.ntp_host_ip_addr
    baud ←
        if d.imu_sensor_hi229
        then sys_load_int32_conf s imu_baud_name (pos d.imu_baud)
        else done (pos 0)
    seq ← sys_load_int32_conf s seq_name (pos 0)
    fps ← sys_load_int32_conf s target_fps_name (pos 0)
    done (record {
      wifi_ssid = ssid;
      wifi_psk = psk;
      data_host_ip_addr = data_host;
      ntp_host_ip_addr = ntp_host;
      imu_baud = if d.imu_sensor_hi229 then limit_imu_baud baud else baud;
      seq = limit_seq seq;
      target_fps = limit_target_fps d.max_fps d.target_fps fps;
    })
