-- ===== src/Sys/Naming.antt =====
-- The names of two nodes.
use rfmarkit_esp_node.Base.{
  ℕ, ◌+◌, ◌-◌, ◌*◌, ◌/◌, ◌%◌, ◌<◌, ◌≡◌, ◌≢◌, refl, sym, ap, ◌∙◌, arith, false, drop, List, [], ◌∷◌,
  ◌++◌, length, replicate, ltb, ◌==◌, if◌then◌else◌,
}
use rfmarkit_esp_node.Base.Text.{c_text}
use rfmarkit_esp_node.Hi229.Crc.Reference.{AllBytes}
use rfmarkit_esp_node.Sys.{Names, hex_digit, hex_bytes, ble_local_name_prefix, sys_init_chip}

-- An address: six bytes
pub record IsMac (mac : List ℕ) : Type 0 where
  pub size : length mac ≡ 6
  pub bytes : AllBytes mac

digit_of : ℕ → ℕ
digit_of c = if ltb c 58 then c - 48 else c - 87

digit_of-hex_digit : (n : ℕ) → n < 16 → digit_of (hex_digit n) ≡ n
unfolding digit_of hex_digit
digit_of-hex_digit n h = ground arith

unhex : List ℕ → List ℕ
unfolding digit_of
unhex [] = []
unhex (a ∷ []) = []
unhex (a ∷ b ∷ cs) = (digit_of a * 16 + digit_of b) ∷ unhex cs

unhex-hex_bytes : (bs : List ℕ) → AllBytes bs → unhex (hex_bytes bs) ≡ bs
unfolding unhex hex_bytes
unhex-hex_bytes [] h = refl
unhex-hex_bytes (b ∷ bs) h =
    rw
      (
        digit_of-hex_digit (b / 16) (omega (arith, h.0)),
        digit_of-hex_digit (b % 16) (omega arith),
        unhex-hex_bytes bs h.1,
      )
      (ap (λ x. x ∷ bs) {x = b / 16 * 16 + b % 16} {y = b} (omega arith))

hex_digit-pos : (n : ℕ) → (hex_digit n == 0) ≡ false
unfolding hex_digit
hex_digit-pos n = ground arith

c_text-hex_bytes : (bs t : List ℕ) → c_text (hex_bytes bs ++ 0 ∷ t) ≡ hex_bytes bs
unfolding c_text hex_bytes
c_text-hex_bytes [] t = refl
c_text-hex_bytes (b ∷ bs) t =
    rw (hex_digit-pos (b / 16), hex_digit-pos (b % 16), c_text-hex_bytes bs t) refl

-- What the names are for an address of six bytes.
named :
    (mac : List ℕ) (names : Names)
    → length mac ≡ 6
    → ((sys_init_chip mac names).device_id ≡ hex_bytes mac)
      × ((sys_init_chip mac names).ble_local_name
          ≡ ble_local_name_prefix ++ (hex_bytes mac ++ 0 ∷ replicate 12 0))
unfolding sys_init_chip hex_bytes
named [] names h = absurd (omega arith)
named (a ∷ []) names h = absurd (omega arith)
named (a ∷ b ∷ []) names h = absurd (omega arith)
named (a ∷ b ∷ c ∷ []) names h = absurd (omega arith)
named (a ∷ b ∷ c ∷ d ∷ []) names h = absurd (omega arith)
named (a ∷ b ∷ c ∷ d ∷ e ∷ []) names h = absurd (omega arith)
named (a ∷ b ∷ c ∷ d ∷ e ∷ f ∷ []) names h = (refl, refl)
named (a ∷ b ∷ c ∷ d ∷ e ∷ f ∷ g ∷ xs) names h = absurd (omega arith)

text_of-ble_local_name :
    (mac : List ℕ) (names : Names)
    → IsMac mac
    → c_text (sys_init_chip mac names).ble_local_name ≡ ble_local_name_prefix ++ hex_bytes mac
unfolding c_text
text_of-ble_local_name mac names h =
    ap c_text (named mac names h.size).1
    ∙ ap (λ t. ble_local_name_prefix ++ t) (c_text-hex_bytes mac (replicate 12 0))

-- For two different addresses of six bytes, where the byte behind the id is 0 as at the start: the id has 12 bytes and is
-- a C string, the name in the advertising is the prefix and then the id, and the names of the two nodes differ as C
-- strings.
pub sys_init_chip-names :
    (mac mac' : List ℕ) (names names' : Names)
    → IsMac mac
    → IsMac mac'
    → names.device_id_sep ≡ 0
    → mac ≢ mac'
    → (c_text (
          (sys_init_chip mac names).device_id
          ++ (sys_init_chip mac names).device_id_sep ∷ (sys_init_chip mac names).ble_local_name)
        ≡ (sys_init_chip mac names).device_id)
      × (length (sys_init_chip mac names).device_id ≡ 12)
      × (c_text (sys_init_chip mac names).ble_local_name
          ≡ ble_local_name_prefix ++ (sys_init_chip mac names).device_id)
      × (c_text (sys_init_chip mac names).ble_local_name
          ≢ c_text (sys_init_chip mac' names').ble_local_name)
unfolding sys_init_chip
sys_init_chip-names mac mac' names names' h h' sep differ =
    let (id, name) = named mac names h.size in
    (
      ap
            (λ (t : List ℕ).
              c_text (t ++ names.device_id_sep ∷ (sys_init_chip mac names).ble_local_name))
            id
          ∙ ap (λ z. c_text (hex_bytes mac ++ z ∷ (sys_init_chip mac names).ble_local_name)) sep
          ∙ c_text-hex_bytes mac (sys_init_chip mac names).ble_local_name
          ∙ sym id,
      refl,
      text_of-ble_local_name mac names h ∙ ap (λ t. ble_local_name_prefix ++ t) (sym id),
      λ e. differ (
          sym (unhex-hex_bytes mac h.bytes)
          ∙ ap (λ t. unhex (drop 7 t))
              (sym (text_of-ble_local_name mac names h) ∙ e ∙ text_of-ble_local_name mac' names' h')
          ∙ unhex-hex_bytes mac' h'.bytes),
    )
