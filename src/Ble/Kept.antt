-- ===== src/Ble/Kept.antt =====
-- The name and the key that a peer writes over Bluetooth, through the flash to the loading at the next boot.
use rfmarkit_esp_node.Base.{
  ℕ, ◌≤◌, ◌<◌, ◌≡◌, refl, ap, ◌∙◌, arith, Bool, true, Option, some, List, [], ◌∷◌, ◌++◌, length,
  ltb, if◌then◌else◌,
}
use rfmarkit_esp_node.Base.Int.{ℤ}
use rfmarkit_esp_node.Base.Outcome.{done, ◌>>=◌}
use rfmarkit_esp_node.Nvs.{
  blob, stored_value, var_names, var_type, sys_find_var, strncmp_is_0, longer, wifi_ssid_name,
  wifi_psk_name,
}
use rfmarkit_esp_node.Nvs.Lookup.{is_name}
use rfmarkit_esp_node.Nvs.Load.{
  Flash, IsFlash, name_at, write, load_str, sys_get_nvs_var, get_value, read_into, text_or, zeros,
  sys_load_str_conf,
}
use rfmarkit_esp_node.Nvs.Texts.{no_zero, sys_load_str_conf-stored}
use rfmarkit_esp_node.Node.{Node, Call, nvs_set}
use rfmarkit_esp_node.Ble.Gatt.{success, gatt_svr_chr_wifi_info}
use rfmarkit_esp_node.Ble.Provision.{lacks, ends_line, provision-config}

no_zero-tail : (c : ℕ) (xs : List ℕ) → no_zero (c ∷ xs) ≡ true → no_zero xs ≡ true
unfolding no_zero
no_zero-tail c xs h = ground (arith, h)

no_zero-parts :
    (xs ys : List ℕ) → no_zero (xs ++ ys) ≡ true → (no_zero xs ≡ true) × (no_zero ys ≡ true)
unfolding no_zero
no_zero-parts [] ys h = (refl, h)
no_zero-parts (x ∷ xs) ys h =
    let (first, second) = no_zero-parts xs ys (ground (arith, h)) in
    (ground (arith, h, first), second)

module _ {S : Type 0} (fs : Flash S) (behind : ℕ → List ℕ) where
  -- The flash after the calls of a node; `behind` has what stood in memory behind each text.
  unfoldable pub flash_after : List Call → S → S
  unfolding write name_at
  flash_after [] s = s
  flash_after (nvs_set index value ∷ cs) s =
      write fs (name_at var_names index) (behind index) value (flash_after cs s)
  flash_after (_ ∷ cs) s = flash_after cs s

  module _ (junk : List ℕ → ℤ) (tmp : List ℕ → ℕ) (print : ℤ → List ℕ) where
    ssid-kept :
        (s : S) (psk default_value : List ℕ)
        → IsFlash fs
        → sys_load_str_conf fs junk tmp print
            (write fs wifi_psk_name (behind 1) (blob psk) s)
            wifi_ssid_name
            default_value
          ≡ sys_load_str_conf fs junk tmp print s wifi_ssid_name default_value
    unfolding sys_load_str_conf load_str sys_get_nvs_var get_value write sys_find_var strncmp_is_0
        longer name_at var_type is_name
    ssid-kept s psk default_value law =
        ap
          (λ (o : Option (List ℕ)).
            read_into (junk wifi_ssid_name) (zeros 64) o
            >>= text_or fs junk tmp print default_value)
          (law.blob_other wifi_psk_name wifi_ssid_name _ s (tmp wifi_ssid_name) refl)

    -- A write over Bluetooth of a name of 1 to 63 bytes without a space, a space, a key of 1 to 63 bytes without a
    -- line feed, and then nothing or a line feed and more, with no zero byte and shorter than its buffer, is accepted,
    -- and from the flash that its calls leave, the loading at a later boot gives this name and key, or the default for
    -- one where the uninitialised length of its read is below 64; given that the flash library keeps its documented
    -- behaviour.
    pub provision-load :
        (om_size : ℕ) (ssid : List ℕ) (appended : Bool) (n : Node) (psk rest : List ℕ) (s : S)
        (default_ssid default_psk : List ℕ)
        → length (ssid ++ b' ' ∷ (psk ++ rest)) < om_size
        → no_zero (ssid ++ b' ' ∷ (psk ++ rest)) ≡ true
        → lacks b' ' ssid ≡ true
        → lacks 10 psk ≡ true
        → ends_line rest ≡ true
        → (1 ≤ length ssid) × (length ssid ≤ 63)
        → (1 ≤ length psk) × (length psk ≤ 63)
        → IsFlash fs
        → (64 ≤ length (behind 0)) × (64 ≤ length (behind 1))
        → (m : Node) × (gatt_svr_chr_wifi_info 0x2b1f om_size
              (ssid ++ b' ' ∷ (psk ++ rest))
              appended
              n
            ≡ some (success, [], m))
          × (sys_load_str_conf fs junk tmp print (flash_after m.calls s) wifi_ssid_name default_ssid
              ≡ done (if ltb (tmp wifi_ssid_name) 64 then default_ssid else ssid))
          × (sys_load_str_conf fs junk tmp print (flash_after m.calls s) wifi_psk_name default_psk
              ≡ done (if ltb (tmp wifi_psk_name) 64 then default_psk else psk))
    unfolding flash_after sys_find_var strncmp_is_0 longer var_type stored_value name_at
    provision-load om_size ssid appended n psk rest s default_ssid default_psk room plain word line
          end ssid_len psk_len law far =
        let (m, accepted, calls, events, config) =
          provision-config om_size ssid appended n psk rest 64 64 room plain word line end ssid_len
            psk_len (omega arith) in
        let parts = no_zero-parts ssid (b' ' ∷ (psk ++ rest)) plain in
        let before = flash_after n.calls s in
        let first = write fs wifi_ssid_name (behind 0) (blob ssid) before in
        (
          m,
          accepted,
          ap
                (λ (cs : List Call).
                  sys_load_str_conf fs junk tmp print (flash_after cs s) wifi_ssid_name
                    default_ssid)
                calls
              ∙ ssid-kept first psk default_ssid law
              ∙ sys_load_str_conf-stored fs junk tmp print before wifi_ssid_name ssid (behind 0)
                  default_ssid 0 law refl refl ssid_len.0 ssid_len.1 parts.0 far.0,
          ap
                (λ (cs : List Call).
                  sys_load_str_conf fs junk tmp print (flash_after cs s) wifi_psk_name default_psk)
                calls
              ∙ sys_load_str_conf-stored fs junk tmp print first wifi_psk_name psk (behind 1)
                  default_psk 1 law refl refl psk_len.0 psk_len.1
                  (no_zero-parts psk rest (no_zero-tail b' ' (psk ++ rest) parts.1)).0 far.1,
        )
