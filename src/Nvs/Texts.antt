-- ===== src/Nvs/Texts.antt =====
-- A text that `sys_set_nvs_var` of components/sys/nvs_mgmt.c has stored, read again at boot by `sys_load_str_conf`.
use rfmarkit_esp_node.Base.{
  drop, ℕ, zero, suc, ◌≤◌, ◌≡◌, refl, ap, ◌∙◌, arith, Bool, true, false, not, ◌&&◌, some, List, [],
  ◌∷◌, ◌++◌, length, take, ltb, ◌==◌, if◌then◌else◌,
}
use rfmarkit_esp_node.Base.Int.{ℤ}
use rfmarkit_esp_node.Base.Outcome.{done, ◌>>=◌}
use rfmarkit_esp_node.Nvs.{var_str, stored_value, sys_find_var, var_names, var_type}
use rfmarkit_esp_node.Nvs.Load.{
  Flash, IsFlash, value_or, name_at, c_string, zeros, write, get_value, read_into, load_str,
  text_or, sys_get_nvs_var, sys_load_str_conf,
}

-- The text has no zero byte.
unfoldable pub no_zero : List ℕ → Bool
no_zero [] = true
no_zero (c ∷ cs) = not (c == 0) && no_zero cs

block : List ℕ → List ℕ → List ℕ
block value behind = take 64 (value ++ 0 ∷ behind)

c_string-take :
    (n : ℕ) (value behind rest : List ℕ)
    → suc (length value) ≤ n
    → no_zero value ≡ true
    → c_string (take n (value ++ 0 ∷ behind) ++ rest) ≡ done value
unfolding c_string no_zero
c_string-take zero value behind rest h e = ground arith
c_string-take (suc n) [] behind rest h e = refl
c_string-take (suc n) (c ∷ cs) behind rest h e = (λ i.
    if plain i
    then done []
    else (c_string-take n cs behind rest (omega arith) (ground arith) i
        >>= (λ text. done (c ∷ text))))
  where
    plain : (c == 0) ≡ false
    plain = ground arith

length-take_full : {A : Type 0} (n : ℕ) (xs : List A) → n ≤ length xs → length (take n xs) ≡ n
length-take_full zero xs h = refl
length-take_full (suc n) [] h = ground arith
length-take_full (suc n) (x ∷ xs) h = ap suc (length-take_full n xs (omega arith))

length-block : (value behind : List ℕ) → length behind ≤ length (value ++ 0 ∷ behind)
length-block [] behind = omega arith
length-block (c ∷ cs) behind = omega (arith, length-block cs behind)

module _ {S : Type 0} (fs : Flash S) (junk : List ℕ → ℤ) (tmp : List ℕ → ℕ)
    (print : ℤ → List ℕ) where
  length-stored : (value behind : List ℕ) → 64 ≤ length behind → length (block value behind) ≡ 64
  unfolding block
  length-stored value behind far =
      length-take_full 64 (value ++ 0 ∷ behind) (omega (arith, length-block value behind))

  if_room :
      (j : ℤ) (default_value value behind : List ℕ)
      → 1 ≤ length value
      → length value ≤ 63
      → no_zero value ≡ true
      → 64 ≤ length behind
      → (read_into j (zeros 64) (some (block value behind))
          >>= text_or fs junk tmp print default_value)
        ≡ done value
  unfolding text_or block read_into
  if_room j default_value value behind some_text short plain far =
      rw
        (
          length-stored value behind far,
          c_string-take 64 value behind (drop 64 (zeros 64)) (omega arith) plain,
        )
        (ground arith)

  read_block :
      (s : S) (key value behind default_value : List ℕ) (t : Bool)
      → IsFlash fs
      → 1 ≤ length value
      → length value ≤ 63
      → no_zero value ≡ true
      → 64 ≤ length behind
      → ltb (tmp key) 64 ≡ t
      → (get_value fs junk tmp print var_str key (fs.set_blob key (block value behind) s) (zeros 64)
          >>= text_or fs junk tmp print default_value)
        ≡ done (if t then default_value else value)
  unfolding get_value value_or zeros text_or c_string
  read_block s key value behind default_value true law some_text short plain far e =
      let small : suc (tmp key) ≤ 64 = ground arith in
      rw
        (law.blob_short key (block value behind) s (tmp key)
          (omega (arith, length-stored value behind far, small)))
        refl
  read_block s key value behind default_value false law some_text short plain far e =
      let enough : 64 ≤ tmp key = ground arith in
      rw
        (law.blob_same key (block value behind) s (tmp key)
          (omega (arith, length-stored value behind far, enough)))
        (if_room (junk key) default_value value behind some_text short plain far)

  -- A text of 1 to 63 bytes that is stored for a variable of the table is read again, if the uninitialised length
  -- with which `sys_get_nvs_var` reads it is at least 64; if it is less, the default is taken.
  pub sys_load_str_conf-stored :
      (s : S) (name value behind default_value : List ℕ) (index : ℕ)
      → IsFlash fs
      → sys_find_var var_names 0 name (length name) ≡ some index
      → var_type index ≡ var_str
      → 1 ≤ length value
      → length value ≤ 63
      → no_zero value ≡ true
      → 64 ≤ length behind
      → sys_load_str_conf fs junk tmp print
          (write fs (name_at var_names index) behind (stored_value (var_type index) value) s)
          name
          default_value
        ≡ done (if ltb (tmp (name_at var_names index)) 64 then default_value else value)
  unfolding sys_load_str_conf load_str sys_get_nvs_var write stored_value block
  sys_load_str_conf-stored s name value behind default_value index law found kind some_text short
        plain far =
      let key = name_at var_names index in
      ap
        (λ o.
          load_str fs junk tmp print o (write fs key behind (stored_value (var_type index) value) s)
            default_value)
        found
      ∙ (λ i.
          get_value fs junk tmp print (kind i) key
            (write fs key behind (stored_value (kind i) value) s) (zeros 64)
          >>= text_or fs junk tmp print default_value)
      ∙ read_block s key value behind default_value _ law some_text short plain far refl
