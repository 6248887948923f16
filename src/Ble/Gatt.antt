-- ===== src/Ble/Gatt.antt =====
-- components/ble/gatt_srv.c: the access to the Wi-Fi service. A result `none` stands for undefined behaviour.
use rfmarkit_esp_node.Base.{
  ℕ, Bool, Option, none, some, List, [], ◌∷◌, ◌++◌, length, ltb, ◌==◌, if◌then◌else◌,
}
use rfmarkit_esp_node.Base.Text.{c_text, three_digits}
use rfmarkit_esp_node.Nvs.{sys_find_var, var_names, wifi_ssid_name, wifi_psk_name}
use rfmarkit_esp_node.Node.{Node, set_sys_event, sys_set_nvs_var, wifi_config_updated}

-- What the access answers: 0, or `BLE_ATT_ERR_UNLIKELY`.
pub data AttResult : Type 0 where
  success unlikely : AttResult

unfoldable pub skip_delim : ℕ → List ℕ → List ℕ
skip_delim d [] = []
skip_delim d (c ∷ cs) = if c == d then skip_delim d cs else c ∷ cs

-- The bytes up to the delimiter, and those behind it.
unfoldable pub split_at : ℕ → List ℕ → List ℕ × List ℕ
split_at d [] = ([], [])
split_at d (c ∷ cs) =
    let (token, rest) = split_at d cs in if c == d then ([], cs) else (c ∷ token, rest)

unfoldable pub token_of : ℕ → List ℕ → Option (List ℕ × List ℕ)
unfolding split_at
token_of d [] = none
token_of d (c ∷ cs) = some (split_at d (c ∷ cs))

-- `strtok` with one delimiter: the token, and the text that the next call goes on with
unfoldable pub strtok : List ℕ → ℕ → Option (List ℕ × List ℕ)
unfolding skip_delim token_of
strtok s d = token_of d (skip_delim d s)

-- `sys_set_nvs_var` on the entry that `sys_find_var` finds, with a variable that is not NULL
unfoldable pub save_var : List ℕ → List ℕ → Node → Option Node
unfolding sys_find_var sys_set_nvs_var
save_var name value n = elim (sys_find_var var_names 0 name (length name)) [
  | none ↦ none
  | some index ↦ some (sys_set_nvs_var index value n).1
]

-- The two names are copied into arrays of 64 bytes, and from there to `g_mcu` and into flash.
unfoldable pub apply_config : List ℕ → List ℕ → Node → Option (AttResult × Node)
unfolding save_var set_sys_event
apply_config ssid psk n =
    elim (save_var wifi_ssid_name ssid (record n { wifi_ssid = ssid; wifi_psk = psk })) [
      | none ↦ none
      | some m ↦ elim (save_var wifi_psk_name psk m) [
        | none ↦ none
        | some m' ↦ some (success, set_sys_event wifi_config_updated m')
      ]
    ]

-- What follows the first token.
unfoldable pub copy_psk : List ℕ → Option (List ℕ × List ℕ) → Node → Option (AttResult × Node)
unfolding apply_config
copy_psk ssid none n = some (unlikely, n)
copy_psk ssid (some (psk, rest)) n = if ltb (length psk) 64 then apply_config ssid psk n else none

unfoldable pub copy_ssid : Option (List ℕ × List ℕ) → Node → Option (AttResult × Node)
unfolding copy_psk strtok
copy_ssid none n = some (unlikely, n)
copy_ssid (some (ssid, rest)) n =
    if ltb (length ssid) 64 then copy_psk ssid (strtok rest 10) n else none

-- The write: `om_data` holds the bytes that came, in a buffer of `om_size` bytes, and gets a terminator behind them.
unfoldable pub wifi_write : (om_size : ℕ) → List ℕ → Node → Option (AttResult × Node)
unfolding copy_ssid strtok c_text
wifi_write om_size om_data n =
    if ltb (length om_data) om_size then copy_ssid (strtok (c_text om_data) b' ') n else none

-- `IPSTR` with `IP2STR`
unfoldable pub ip_text : ℕ × ℕ × ℕ × ℕ → List ℕ
unfolding three_digits
ip_text (a, b, c, d) =
    three_digits a
    ++ (b'.' ∷ (three_digits b ++ (b'.' ∷ (three_digits c ++ (b'.' ∷ three_digits d)))))

-- The read: what is appended to the answer, for whether the stack has room for it.
unfoldable pub wifi_read : Bool → Node → AttResult × List ℕ
unfolding ip_text
wifi_read appended n = (
  if appended then success else unlikely,
  if n.wifi_connected then ip_text n.ip else b'0' ∷ b'.' ∷ b'0' ∷ b'.' ∷ b'0' ∷ b'.' ∷ b'0' ∷ [],
)

-- `gatt_svr_chr_wifi_info`: by the uuid of the characteristic; the result, what is appended, and the node
unfoldable pub gatt_svr_chr_wifi_info :
    (uuid om_size : ℕ) → List ℕ → Bool → Node → Option (AttResult × List ℕ × Node)
unfolding wifi_write wifi_read
gatt_svr_chr_wifi_info uuid om_size om_data appended n =
    if uuid == 0x2b1f
    then elim (wifi_write om_size om_data n) [ none ↦ none | some (r, m) ↦ some (r, [], m) ]
    else if uuid == 0x2b20
    then some ((wifi_read appended n).0, (wifi_read appended n).1, n)
    else some (unlikely, [], n)
