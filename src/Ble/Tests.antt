-- ===== src/Ble/Tests.antt =====
-- The theorems on components/ble at concrete data.
use rfmarkit_esp_node.Base.{ℕ, ◌≡◌, refl, arith, true, false, some, List, [], ◌∷◌, ◌++◌, replicate}
use rfmarkit_esp_node.Base.Int.{pos}
use rfmarkit_esp_node.Base.Outcome.{done}
use rfmarkit_esp_node.Nvs.{blob, wifi_ssid_name, wifi_psk_name}
use rfmarkit_esp_node.Nvs.Example.{tables_flash, tables_flash-IsFlash, empty}
use rfmarkit_esp_node.Nvs.Load.{sys_load_str_conf}
use rfmarkit_esp_node.Ble.Kept.{flash_after, provision-load}
use rfmarkit_esp_node.Nvs.Texts.{no_zero}
use rfmarkit_esp_node.Node.{Node, nvs_set, wifi_config_updated}
use rfmarkit_esp_node.Node.Example.{a_node}
use rfmarkit_esp_node.Wifi.{sys_wifi_prepare_config}
use rfmarkit_esp_node.Ble.{Ble, gap_connect, gap_disconnect, blehr_gap_event, blehr_on_sync}
use rfmarkit_esp_node.Ble.Advertised.{Runs, synced, connected, disconnected, Runs-advertises}
use rfmarkit_esp_node.Ble.Gatt.{success, gatt_svr_chr_wifi_info}
use rfmarkit_esp_node.Ble.Overflow.{keyed, text_of, key_length, is_undefined, provision-overflow}
use rfmarkit_esp_node.Ble.Provision.{lacks, ends_line, provision-config}

abbrev home : List ℕ
home = b'h' ∷ b'o' ∷ b'm' ∷ b'e' ∷ []

abbrev key : List ℕ
key = b'a' ∷ b' ' ∷ b'k' ∷ []

provision-config_example :
    (m : Node) × (gatt_svr_chr_wifi_info 0x2b1f 512 (home ++ b' ' ∷ (key ++ 10 ∷ [])) true a_node
      ≡ some (success, [], m))
    × (m.calls ≡ nvs_set 1 (blob key) ∷ nvs_set 0 (blob home) ∷ [])
    × (m.sys_events ≡ wifi_config_updated ∷ a_node.sys_events)
    × (sys_wifi_prepare_config 32 64 m.wifi_ssid m.wifi_psk
        ≡ some (record { ssid = home; password = key }))
unfolding no_zero lacks ends_line
provision-config_example =
    provision-config 512 home true a_node key (10 ∷ []) 32 64 (omega arith) refl refl refl refl
      (omega arith, omega arith) (omega arith, omega arith) (omega arith)

-- The key has 64 bytes.
provision-overflow_example :
    is_undefined (
      gatt_svr_chr_wifi_info 0x2b1f 512
        (b' ' ∷ (home ++ b' ' ∷ (replicate 64 b'x' ++ 10 ∷ [])))
        true
        a_node)
    ≡ true
unfolding no_zero lacks ends_line text_of key_length
provision-overflow_example =
    provision-overflow 512 1 home (keyed 0 (replicate 64 b'x') (10 ∷ [])) true a_node
      (refl, refl, omega arith) refl (omega arith) (omega arith) refl

abbrev quiet_ble : Ble
quiet_ble = record { conn_handle = 0; advertises = false }

abbrev met : Ble
met =
    blehr_gap_event true true (gap_connect 0 5)
      (record (blehr_on_sync true true quiet_ble) { advertises = false })

left_Runs : Runs false (blehr_gap_event true true gap_disconnect met)
left_Runs = disconnected met (connected (blehr_on_sync true true quiet_ble) 5 (synced quiet_ble))

Runs-advertises_example : (blehr_gap_event true true gap_disconnect met).advertises ≡ true
Runs-advertises_example =
    Runs-advertises false (blehr_gap_event true true gap_disconnect met) left_Runs

-- Zeros stand behind each text, and both lengths are 64.
provision-load_example :
    (m : Node) × (gatt_svr_chr_wifi_info 0x2b1f 512 (home ++ b' ' ∷ (key ++ 10 ∷ [])) true a_node
      ≡ some (success, [], m))
    × (sys_load_str_conf tables_flash
          (λ name. pos 0)
          (λ name. 64)
          (λ z. [])
          (flash_after tables_flash (λ index. replicate 64 0) m.calls empty)
          wifi_ssid_name
          []
        ≡ done home)
    × (sys_load_str_conf tables_flash
          (λ name. pos 0)
          (λ name. 64)
          (λ z. [])
          (flash_after tables_flash (λ index. replicate 64 0) m.calls empty)
          wifi_psk_name
          []
        ≡ done key)
unfolding no_zero lacks ends_line
provision-load_example =
    provision-load tables_flash (λ index. replicate 64 0) (λ name. pos 0) (λ name. 64) (λ z. []) 512
      home true a_node key (10 ∷ []) empty [] [] (omega arith) refl refl refl refl
      (omega arith, omega arith) (omega arith, omega arith) tables_flash-IsFlash
      (omega arith, omega arith)
