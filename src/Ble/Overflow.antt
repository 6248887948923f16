-- ===== src/Ble/Overflow.antt =====
-- A write over Bluetooth to components/ble/gatt_srv.c against the sizes of the arrays for the name and the key.
use rfmarkit_esp_node.Base.{
  ℕ, zero, suc, ◌≤◌, ◌<◌, ◌≡◌, refl, ap, ◌∙◌, arith, Bool, true, false, not, ◌||◌, Option, none,
  some, List, [], ◌∷◌, ◌++◌, append-nil, sym, replicate, length, ltb, leb, ◌==◌, if◌then◌else◌,
}
use rfmarkit_esp_node.Base.Text.{c_text}
use rfmarkit_esp_node.Nvs.Texts.{no_zero}
use rfmarkit_esp_node.Node.{Node}
use rfmarkit_esp_node.Ble.Gatt.{
  AttResult, skip_delim, split_at, token_of, strtok, copy_psk, copy_ssid, success, wifi_write,
  gatt_svr_chr_wifi_info,
}
use rfmarkit_esp_node.Ble.Provision.{
  lacks, ends_line, c_text-no_zero, strtok-word, strtok-line, apply_config-provisioned, provisioned,
}

-- What follows the first word of a text: nothing; a space and line feeds; a space, line feeds, a key, and then nothing or
-- a line feed and more.
pub data Rest : Type 0 where
  nothing : Rest
  blank : ℕ → Rest
  keyed : ℕ → (key tail : List ℕ) → Rest

abbrev pub IsRest : Rest → Type 0
IsRest nothing = Unit {0}
IsRest (blank j) = Unit {0}
IsRest (keyed j key tail) = (lacks 10 key ≡ true) × (ends_line tail ≡ true) × (1 ≤ length key)

unfoldable pub text_of : Rest → List ℕ
text_of nothing = []
text_of (blank j) = b' ' ∷ replicate j 10
text_of (keyed j key tail) = b' ' ∷ (replicate j 10 ++ (key ++ tail))

unfoldable pub key_length : Rest → ℕ
key_length nothing = 0
key_length (blank j) = 0
key_length (keyed j key tail) = length key

unfoldable pub is_undefined : Option (AttResult × List ℕ × Node) → Bool
is_undefined none = true
is_undefined (some r) = false

unfoldable is_none : Option (AttResult × Node) → Bool
is_none none = true
is_none (some r) = false

skip_delim-replicate :
    (d i : ℕ) (xs : List ℕ) → skip_delim d (replicate i d ++ xs) ≡ skip_delim d xs
unfolding skip_delim
skip_delim-replicate d zero xs = refl
skip_delim-replicate d (suc i) xs =
    let same : (d == d) ≡ true = ground arith in
    ap (λ (b : Bool). if b then skip_delim d (replicate i d ++ xs) else d ∷ (replicate i d ++ xs))
      same
    ∙ skip_delim-replicate d i xs

strtok-replicate : (d i : ℕ) (xs : List ℕ) → strtok (replicate i d ++ xs) d ≡ strtok xs d
unfolding strtok
strtok-replicate d i xs = ap (token_of d) (skip_delim-replicate d i xs)

strtok-empty : (d : ℕ) → strtok [] d ≡ none
unfolding strtok skip_delim token_of
strtok-empty d = refl

strtok-blank : (d i : ℕ) → strtok (replicate i d) d ≡ none
strtok-blank d i =
    ap (λ (xs : List ℕ). strtok xs d) (sym (append-nil (replicate i d)))
    ∙ strtok-replicate d i []
    ∙ strtok-empty d

split_at-all : (d : ℕ) (s : List ℕ) → lacks d s ≡ true → split_at d s ≡ (s, [])
unfolding split_at lacks
split_at-all d [] h = refl
split_at-all d (c ∷ cs) h = rw (split_at-all d cs (ground arith)) (ground arith)

strtok-all : (d : ℕ) (s : List ℕ) → lacks d s ≡ true → 1 ≤ length s → strtok s d ≡ some (s, [])
unfolding strtok skip_delim token_of lacks
strtok-all d [] h k = absurd (omega arith)
strtok-all d (c ∷ cs) h k =
    let first : (c == d) ≡ false = ground arith in
    ap (λ (b : Bool). token_of d (if b then skip_delim d cs else c ∷ cs)) first
    ∙ ap some (split_at-all d (c ∷ cs) h)

if-is_none : (b : Bool) (r : AttResult × Node) → is_none (if b then some r else none) ≡ not b
unfolding is_none
if-is_none true r = refl
if-is_none false r = refl

guarded-is_none :
    (b : Bool) (o : Option (AttResult × Node))
    → is_none (if b then o else none) ≡ not b || is_none o
unfolding is_none
guarded-is_none true o = refl
guarded-is_none false o = refl

ltb-not : (a b : ℕ) → not (ltb a b) ≡ leb b a
ltb-not a b = ground arith

module _ (ssid : List ℕ) (n : Node) where
  copy_psk-is_none :
      (o : Option (List ℕ × List ℕ)) (key rest : List ℕ)
      → o ≡ some (key, rest)
      → is_none (copy_psk ssid o n) ≡ leb 64 (length key)
  unfolding copy_psk
  copy_psk-is_none o key rest e =
      ap (λ (p : Option (List ℕ × List ℕ)). is_none (copy_psk ssid p n)) e
      ∙ ap (λ (r : Option (AttResult × Node)). is_none (if ltb (length key) 64 then r else none))
          (apply_config-provisioned ssid key n)
      ∙ if-is_none (ltb (length key) 64) (success, provisioned ssid key n)
      ∙ ltb-not (length key) 64

  copy_psk-none : (o : Option (List ℕ × List ℕ)) → o ≡ none → is_none (copy_psk ssid o n) ≡ false
  unfolding copy_psk is_none
  copy_psk-none o e = ap (λ (p : Option (List ℕ × List ℕ)). is_none (copy_psk ssid p n)) e

  -- What is copied of the first word, where the rest is given.
  copy_ssid-is_none :
      (o : Option (List ℕ × List ℕ)) (t : List ℕ) (b : Bool)
      → o ≡ some (ssid, t)
      → is_none (copy_psk ssid (strtok t 10) n) ≡ b
      → is_none (copy_ssid o n) ≡ leb 64 (length ssid) || b
  unfolding copy_ssid is_none
  copy_ssid-is_none o t b e f =
      ap (λ (p : Option (List ℕ × List ℕ)). is_none (copy_ssid p n)) e
      ∙ guarded-is_none (ltb (length ssid) 64) (copy_psk ssid (strtok t 10) n)
      ∙ ap (λ (x : Bool). x || is_none (copy_psk ssid (strtok t 10) n)) (ltb-not (length ssid) 64)
      ∙ ap (λ (x : Bool). leb 64 (length ssid) || x) f

  -- What is copied of the first word, and of what follows it.
  copied :
      (rest : Rest)
      → IsRest rest
      → lacks b' ' ssid ≡ true
      → 1 ≤ length ssid
      → is_none (copy_ssid (strtok (ssid ++ text_of rest) b' ') n)
        ≡ leb 64 (length ssid) || leb 64 (key_length rest)
  unfolding text_of key_length
  copied nothing h word some_ssid =
      copy_ssid-is_none (strtok (ssid ++ []) b' ') [] false
        (ap (λ (xs : List ℕ). strtok xs b' ') (append-nil ssid)
          ∙ strtok-all b' ' ssid word some_ssid)
        (copy_psk-none (strtok [] 10) (strtok-empty 10))
  copied (blank j) h word some_ssid =
      copy_ssid-is_none (strtok (ssid ++ b' ' ∷ replicate j 10) b' ') (replicate j 10) false
        (strtok-word b' ' ssid (replicate j 10) word some_ssid)
        (copy_psk-none (strtok (replicate j 10) 10) (strtok-blank 10 j))
  copied (keyed j key tail) h word some_ssid =
      let t = replicate j 10 ++ (key ++ tail) in
      let (after, e) = strtok-line key tail h.0 h.1 h.2 in
      copy_ssid-is_none (strtok (ssid ++ b' ' ∷ t) b' ') t (leb 64 (length key))
        (strtok-word b' ' ssid t word some_ssid)
        (copy_psk-is_none (strtok t 10) key after (strtok-replicate 10 j (key ++ tail) ∙ e))

outcome-is_undefined :
    (o : Option (AttResult × Node))
    → is_undefined (elim o [ none ↦ none | some (r, m) ↦ some (r, [], m) ]) ≡ is_none o
unfolding is_undefined is_none
outcome-is_undefined none = refl
outcome-is_undefined (some r) = refl

wifi_info-is_undefined :
    (om_size : ℕ) (om_data : List ℕ) (appended : Bool) (n : Node)
    → is_undefined (gatt_svr_chr_wifi_info 0x2b1f om_size om_data appended n)
      ≡ is_none (wifi_write om_size om_data n)
unfolding gatt_svr_chr_wifi_info
wifi_info-is_undefined om_size om_data appended n =
    outcome-is_undefined (wifi_write om_size om_data n)

-- A write of spaces, then a word of at least one byte without a space, and then nothing, or a space and line feeds, or a
-- space, line feeds and a key of at least one byte up to a line feed or the end, where the whole has no zero byte and
-- fits into the buffer with its terminator: copying it is undefined exactly where the word or the key has 64 bytes or
-- more, the size of the array that it is copied to.
pub provision-overflow :
    (om_size i : ℕ) (ssid : List ℕ) (rest : Rest) (appended : Bool) (n : Node)
    → IsRest rest
    → lacks b' ' ssid ≡ true
    → 1 ≤ length ssid
    → length (replicate i b' ' ++ (ssid ++ text_of rest)) < om_size
    → no_zero (replicate i b' ' ++ (ssid ++ text_of rest)) ≡ true
    → is_undefined (
        gatt_svr_chr_wifi_info 0x2b1f om_size
          (replicate i b' ' ++ (ssid ++ text_of rest))
          appended
          n)
      ≡ leb 64 (length ssid) || leb 64 (key_length rest)
unfolding gatt_svr_chr_wifi_info wifi_write
provision-overflow om_size i ssid rest appended n h word some_ssid room plain =
    let msg = replicate i b' ' ++ (ssid ++ text_of rest) in
    let fits : ltb (length msg) om_size ≡ true = ground arith in
    wifi_info-is_undefined om_size msg appended n
    ∙ ap (λ (b : Bool). is_none (if b then copy_ssid (strtok (c_text msg) b' ') n else none)) fits
    ∙ ap (λ (s : List ℕ). is_none (copy_ssid (strtok s b' ') n)) (c_text-no_zero msg plain)
    ∙ ap (λ (o : Option (List ℕ × List ℕ)). is_none (copy_ssid o n))
        (strtok-replicate b' ' i (ssid ++ text_of rest))
    ∙ copied ssid n rest h word some_ssid
