-- ===== src/Nvs/Tests.antt =====
-- The theorems on components/sys/nvs_mgmt.c at concrete names and values.
use rfmarkit_esp_node.Base.{ℕ, ◌≤◌, ◌≡◌, arith, true, List, [], ◌∷◌}
use rfmarkit_esp_node.Base.Int.{pos}
use rfmarkit_esp_node.Base.Text.{strtol10}
use rfmarkit_esp_node.Base.Outcome.{done, ◌>>=◌}
use rfmarkit_esp_node.Nvs.{limit_seq, stored_value, var_type, seq_name}
use rfmarkit_esp_node.Nvs.Load.{Defaults, Loaded, write, sys_load_nvs_configuration}
use rfmarkit_esp_node.Nvs.Example.{tables_flash, tables_flash-IsFlash, empty}
use rfmarkit_esp_node.Nvs.Boot.{load-bounds, load-seq}

-- the names s and seq
abbrev names : List (List ℕ)
names = (115 ∷ []) ∷ (115 ∷ 101 ∷ 113 ∷ []) ∷ []

abbrev defaults : Defaults
defaults = record {
  imu_sensor_hi229 = true;
  wifi_ssid = b'a' ∷ [];
  wifi_psk = b'b' ∷ [];
  data_host_ip_addr = b'c' ∷ [];
  ntp_host_ip_addr = b'd' ∷ [];
  imu_baud = 115200;
  max_fps = 200;
  target_fps = 100;
}

load-bounds_example :
    (c : Loaded) × (sys_load_nvs_configuration tables_flash
        (λ name. pos 1000000)
        (λ name. 64)
        (λ z. [])
        defaults
        empty
      ≡ done c)
    × ((k : ℕ) × (c.seq ≡ pos k) × (k ≤ 255))
    × ((k : ℕ) × (c.target_fps ≡ pos k) × (1 ≤ k) × (k ≤ 200))
    × (true ≡ true → (k : ℕ) × (c.imu_baud ≡ pos k) × (9600 ≤ k) × (k ≤ 921600))
unfolding tables_flash
load-bounds_example =
    load-bounds tables_flash (λ name. pos 1000000) (λ name. 64) (λ z. []) defaults empty
      (λ name b e. ground (arith, e)) (omega arith) (omega arith)

-- The sequence number 300 is stored.
load-seq_example :
    sys_load_nvs_configuration tables_flash
      (λ name. pos 7)
      (λ name. 64)
      (λ z. [])
      defaults
      (write tables_flash seq_name [] (stored_value (var_type 7) (b'3' ∷ b'0' ∷ b'0' ∷ [])) empty)
    ≡ (sys_load_nvs_configuration tables_flash (λ name. pos 7) (λ name. 64) (λ z. []) defaults empty
        >>= (λ (c : Loaded).
            done (record c { seq = limit_seq (strtol10 (b'3' ∷ b'0' ∷ b'0' ∷ [])).0 })))
load-seq_example =
    load-seq tables_flash (λ name. pos 7) (λ name. 64) (λ z. []) defaults empty
      (b'3' ∷ b'0' ∷ b'0' ∷ []) [] tables_flash-IsFlash
