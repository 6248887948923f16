-- ===== src/Ble/Provision.antt =====
-- The name and the key of an access point that a peer writes over Bluetooth, up to the configuration of the Wi-Fi driver.
use rfmarkit_esp_node.Base.{
  ℕ, ◌≤◌, ◌<◌, ◌≡◌, refl, ap, ◌∙◌, arith, Bool, true, false, not, ◌&&◌, Option, none, some, List,
  [], ◌∷◌, ◌++◌, length, ltb, ◌==◌, if◌then◌else◌,
}
use rfmarkit_esp_node.Base.Text.{c_text}
use rfmarkit_esp_node.Nvs.{blob, sys_find_var, strncmp_is_0, longer, var_type, stored_value}
use rfmarkit_esp_node.Nvs.Texts.{no_zero}
use rfmarkit_esp_node.Node.{
  Node, call, nvs_set, set_sys_event, sys_set_nvs_var, wifi_config_updated,
}
use rfmarkit_esp_node.Wifi.{sys_wifi_prepare_config}
use rfmarkit_esp_node.Ble.Gatt.{
  success, skip_delim, split_at, token_of, strtok, save_var, apply_config, copy_psk, copy_ssid,
  wifi_write, gatt_svr_chr_wifi_info,
}

-- The text does not have the byte; the text is empty or begins with a line feed.
unfoldable pub lacks : ℕ → List ℕ → Bool
lacks d [] = true
lacks d (c ∷ cs) = not (c == d) && lacks d cs

unfoldable pub ends_line : List ℕ → Bool
ends_line [] = true
ends_line (c ∷ cs) = c == 10

pub c_text-no_zero : (s : List ℕ) → no_zero s ≡ true → c_text s ≡ s
unfolding c_text no_zero
c_text-no_zero [] h = refl
c_text-no_zero (c ∷ cs) h = rw (c_text-no_zero cs (ground arith)) (ground arith)

pub split_at-word : (d : ℕ) (s t : List ℕ) → lacks d s ≡ true → split_at d (s ++ d ∷ t) ≡ (s, t)
unfolding split_at lacks
split_at-word d [] t h = ground arith
split_at-word d (c ∷ cs) t h = rw (split_at-word d cs t (ground arith)) (ground arith)

split_at-line :
    (s t : List ℕ) → lacks 10 s ≡ true → ends_line t ≡ true → (split_at 10 (s ++ t)).0 ≡ s
unfolding split_at lacks ends_line
split_at-line [] [] h e = refl
split_at-line [] (c ∷ cs) h e = ground (arith, e)
split_at-line (c ∷ cs) t h e = ground (arith, split_at-line cs t)

pub strtok-word :
    (d : ℕ) (s t : List ℕ) → lacks d s ≡ true → 1 ≤ length s → strtok (s ++ d ∷ t) d ≡ some (s, t)
unfolding strtok skip_delim token_of lacks
strtok-word d [] t h k = absurd (omega arith)
strtok-word d (c ∷ cs) t h k =
    let first : (c == d) ≡ false = ground arith in
    ap (λ (b : Bool). token_of d (if b then skip_delim d (cs ++ d ∷ t) else c ∷ (cs ++ d ∷ t)))
      first
    ∙ ap some (split_at-word d (c ∷ cs) t h)

pub strtok-line :
    (s t : List ℕ)
    → lacks 10 s ≡ true
    → ends_line t ≡ true
    → 1 ≤ length s
    → (rest : List ℕ) × (strtok (s ++ t) 10 ≡ some (s, rest))
unfolding strtok skip_delim token_of lacks
strtok-line [] t h e k = absurd (omega arith)
strtok-line (c ∷ cs) t h e k =
    let first : (c == 10) ≡ false = ground arith in
    let split = split_at 10 (c ∷ (cs ++ t)) in
    (
      split.1,
      ap (λ (b : Bool). token_of 10 (if b then skip_delim 10 (cs ++ t) else c ∷ (cs ++ t))) first
          ∙ ap (λ (w : List ℕ). some (w, split.1)) (split_at-line (c ∷ cs) t h e),
    )

-- What an accepted write leaves.
unfoldable pub provisioned : List ℕ → List ℕ → Node → Node
unfolding call set_sys_event
provisioned ssid psk n = set_sys_event wifi_config_updated (
    call (nvs_set 1 (blob psk))
      (call (nvs_set 0 (blob ssid)) (record n { wifi_ssid = ssid; wifi_psk = psk })))

pub apply_config-provisioned :
    (ssid psk : List ℕ) (n : Node)
    → apply_config ssid psk n ≡ some (success, provisioned ssid psk n)
unfolding apply_config save_var sys_find_var strncmp_is_0 longer sys_set_nvs_var stored_value
    var_type provisioned
apply_config-provisioned ssid psk n = refl

module _ (om_size : ℕ) (ssid : List ℕ) (appended : Bool) (n : Node) where
  written :
      (t : List ℕ)
      → length (ssid ++ b' ' ∷ t) < om_size
      → no_zero (ssid ++ b' ' ∷ t) ≡ true
      → lacks b' ' ssid ≡ true
      → 1 ≤ length ssid
      → wifi_write om_size (ssid ++ b' ' ∷ t) n
        ≡ (if ltb (length ssid) 64 then copy_psk ssid (strtok t 10) n else none)
  unfolding wifi_write copy_ssid
  written t room plain word some_ssid =
      let fits : ltb (length (ssid ++ b' ' ∷ t)) om_size ≡ true = ground arith in
      let msg = ssid ++ b' ' ∷ t in
      ap (λ (b : Bool). if b then copy_ssid (strtok (c_text msg) b' ') n else none) fits
      ∙ ap (λ (s : List ℕ). copy_ssid (strtok s b' ') n) (c_text-no_zero msg plain)
      ∙ ap (λ (o : Option (List ℕ × List ℕ)). copy_ssid o n)
          (strtok-word b' ' ssid t word some_ssid)

  -- A write of a name of 1 to 63 bytes without a space, a space, a key of 1 to 63 bytes without a line feed, and then
  -- nothing or a line feed and more, with no zero byte and shorter than its buffer, is accepted: both are stored in
  -- flash, the event of a new configuration is set, and the next attempt gives the Wi-Fi driver this name and key; but
  -- where the name does not fit into the driver's array with its terminator, the attempt writes past that array.
  pub provision-config :
      (psk rest : List ℕ) (ssid_size password_size : ℕ)
      → length (ssid ++ b' ' ∷ (psk ++ rest)) < om_size
      → no_zero (ssid ++ b' ' ∷ (psk ++ rest)) ≡ true
      → lacks b' ' ssid ≡ true
      → lacks 10 psk ≡ true
      → ends_line rest ≡ true
      → (1 ≤ length ssid) × (length ssid ≤ 63)
      → (1 ≤ length psk) × (length psk ≤ 63)
      → 64 ≤ password_size
      → (m : Node) × (gatt_svr_chr_wifi_info 0x2b1f om_size
            (ssid ++ b' ' ∷ (psk ++ rest))
            appended
            n
          ≡ some (success, [], m))
        × (m.calls ≡ nvs_set 1 (blob psk) ∷ nvs_set 0 (blob ssid) ∷ n.calls)
        × (m.sys_events ≡ wifi_config_updated ∷ n.sys_events)
        × (sys_wifi_prepare_config ssid_size password_size m.wifi_ssid m.wifi_psk ≡ (
            if ltb (length ssid) ssid_size
            then some (record { ssid = ssid; password = psk })
            else none))
  unfolding gatt_svr_chr_wifi_info copy_psk provisioned call set_sys_event sys_wifi_prepare_config
  provision-config psk rest ssid_size password_size room plain word line end ssid_len psk_len
        large =
      let (after, key) = strtok-line psk rest line end psk_len.0 in
      let short : ltb (length ssid) 64 ≡ true = ground (arith, ssid_len.1) in
      let short' : ltb (length psk) 64 ≡ true = ground (arith, psk_len.1) in
      let e : wifi_write om_size (ssid ++ b' ' ∷ (psk ++ rest)) n
          ≡ some (success, provisioned ssid psk n) =
        written (psk ++ rest) room plain word ssid_len.0
        ∙ ap (λ (b : Bool). if b then copy_psk ssid (strtok (psk ++ rest) 10) n else none) short
        ∙ ap (λ (o : Option (List ℕ × List ℕ)). copy_psk ssid o n) key
        ∙ ap (λ (b : Bool). if b then apply_config ssid psk n else none) short'
        ∙ apply_config-provisioned ssid psk n in
      (provisioned ssid psk n, rw e refl, refl, refl, ground (arith, psk_len.1))
