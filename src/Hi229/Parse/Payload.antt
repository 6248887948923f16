-- ===== src/Hi229/Parse/Payload.antt =====
-- `parse_data` on a payload that is a sequence of items: what it stores.
use rfmarkit_esp_node.Base.{
  ℕ, zero, suc, ◌+◌, ◌-◌, ◌≤◌, ◌<◌, ◌≡◌, refl, ap, ◌∙◌, arith, some, List, [], ◌∷◌, ◌++◌, map,
  length, drop, set, replicate, get_elem?, append_assoc, length-append, set-append_at,
}
use rfmarkit_esp_node.Base.Outcome.{done}
use rfmarkit_esp_node.Hi229.Raw.{FloatOps, Raw, hdr_size}
use rfmarkit_esp_node.Hi229.Parse.{item, parse_loop, parse_data}
use rfmarkit_esp_node.Hi229.Parse.Locality.{At}
use rfmarkit_esp_node.Hi229.Parse.Items.{
  Item, id, quat, pressure, solution, encode, encode_all, code_of, bytes_of, apply_all,
}
use rfmarkit_esp_node.Hi229.Parse.Step.{accepted, item-accepted}

unfoldable pub bytes_all : List Item → ℕ
bytes_all [] = 0
bytes_all (x ∷ xs) = bytes_of x + bytes_all xs

At-drop : (buf : List ℕ) (p n : ℕ) (xs : List ℕ) → At buf p xs → At buf (p + n) (drop n xs)
At-drop buf p zero xs h k = ap (get_elem? buf) (omega arith) ∙ h k
At-drop buf p (suc n) [] h k = ap (get_elem? buf) (omega arith) ∙ h (suc n + k)
At-drop buf p (suc n) (x ∷ xs) h k =
    ap (get_elem? buf) (omega arith)
    ∙ At-drop buf (p + 1) n xs (λ j. ap (get_elem? buf) (omega arith) ∙ h (suc j)) k

drop-encode : (x : Item) (rest : List ℕ) → drop (bytes_of x) (encode x rest) ≡ rest
unfolding encode bytes_of
drop-encode (id b) rest = refl
drop-encode (quat q) rest = refl
drop-encode (pressure w) rest = refl
drop-encode (solution s) rest = refl
drop-encode _ rest = refl

pub bytes_of_pos : (x : Item) → 1 ≤ bytes_of x
unfolding bytes_of
bytes_of_pos (id b) = omega arith
bytes_of_pos (quat q) = omega arith
bytes_of_pos (pressure w) = omega arith
bytes_of_pos (solution s) = omega arith
bytes_of_pos _ = omega arith

pub length-le-bytes_all : (xs : List Item) → length xs ≤ bytes_all xs
unfolding bytes_all
length-le-bytes_all [] = omega arith
length-le-bytes_all (x ∷ xs) = omega (arith, bytes_of_pos x, length-le-bytes_all xs)

module _ {F : Type 0} (fl : FloatOps F) where
  pub accepted_all : List Item → Raw F → Raw F
  accepted_all [] raw = raw
  accepted_all (x ∷ xs) raw = accepted_all xs (accepted fl x raw)

  pub parse_loop-step :
      (fuel : ℕ) (raw raw' : Raw F) (ofs ofs' : ℕ)
      → ofs < raw.len
      → item fl raw ofs ≡ some (raw', ofs')
      → parse_loop fl (suc fuel) raw ofs ≡ parse_loop fl fuel raw' ofs'
  unfolding parse_loop
  parse_loop-step fuel raw raw' ofs ofs' h e = ground arith

  parse_loop-end :
      (fuel : ℕ) (raw : Raw F) (ofs : ℕ) → raw.len ≤ ofs → parse_loop fl fuel raw ofs ≡ done raw
  unfolding parse_loop
  parse_loop-end zero raw ofs h = ground arith
  parse_loop-end (suc fuel) raw ofs h = ground arith

  pub next-At :
      (x : Item) (raw : Raw F) (ofs : ℕ) (rest : List ℕ)
      → At raw.buf (hdr_size + ofs) (encode x rest)
      → At raw.buf (hdr_size + (ofs + bytes_of x)) rest
  next-At x raw ofs rest h k =
      ap (get_elem? raw.buf) (omega arith)
      ∙ At-drop raw.buf (hdr_size + ofs) (bytes_of x) (encode x rest) h k
      ∙ ap (λ (l : List ℕ). get_elem? l k) (drop-encode x rest)

  pub parse_loop-items :
      (xs : List Item) (rest : List ℕ) (fuel : ℕ) (raw : Raw F) (ofs : ℕ)
      → At raw.buf (hdr_size + ofs) (encode_all xs rest)
      → raw.len ≡ ofs + bytes_all xs
      → raw.nitem_code + length xs ≤ 8
      → length xs ≤ fuel
      → parse_loop fl fuel raw ofs ≡ done (accepted_all xs raw)
  unfolding accepted_all encode_all bytes_all
  parse_loop-items [] rest fuel raw ofs h total room enough =
      parse_loop-end fuel raw ofs (omega arith)
  parse_loop-items (x ∷ xs) rest zero raw ofs h total room enough = absurd (omega arith)
  parse_loop-items (x ∷ xs) rest (suc fuel) raw ofs h total room enough =
      parse_loop-step fuel raw (accepted fl x raw) ofs (ofs + bytes_of x)
        (omega (arith, bytes_of_pos x))
        (item-accepted fl x raw ofs (encode_all xs rest) h (omega arith))
      ∙ parse_loop-items xs rest fuel (accepted fl x raw) (ofs + bytes_of x)
          (next-At x raw ofs (encode_all xs rest) h) (omega arith) (omega arith) (omega arith)

  accepted_all-imu :
      (xs : List Item) (raw : Raw F) → (accepted_all xs raw).imu ≡ apply_all fl xs raw.imu
  unfolding accepted_all apply_all
  accepted_all-imu [] raw = refl
  accepted_all-imu (x ∷ xs) raw = accepted_all-imu xs (accepted fl x raw)

  accepted_all-count :
      (xs : List Item) (raw : Raw F) → (accepted_all xs raw).nitem_code ≡ raw.nitem_code + length xs
  unfolding accepted_all
  accepted_all-count [] raw = omega arith
  accepted_all-count (x ∷ xs) raw = omega (arith, accepted_all-count xs (accepted fl x raw))

  noted_code :
      (x : Item) (raw : Raw F) (codes : List ℕ) (k : ℕ)
      → raw.item_code ≡ codes ++ (0 ∷ replicate k 0)
      → raw.nitem_code ≡ length codes
      → (accepted fl x raw).item_code ≡ (codes ++ (code_of x ∷ [])) ++ replicate k 0
  noted_code x raw codes k e n =
      (λ i. set (e i) (n i) (code_of x)) ∙ set-append_at codes (replicate k 0) 0 (code_of x)

  accepted_all-codes :
      (xs : List Item) (raw : Raw F) (codes : List ℕ) (k : ℕ)
      → raw.item_code ≡ codes ++ replicate (length xs + k) 0
      → raw.nitem_code ≡ length codes
      → (accepted_all xs raw).item_code ≡ codes ++ (map code_of xs ++ replicate k 0)
  unfolding accepted_all
  accepted_all-codes [] raw codes k e n = e ∙ ap (λ (t : ℕ). codes ++ replicate t 0) (omega arith)
  accepted_all-codes (x ∷ xs) raw codes k e n =
      accepted_all-codes xs (accepted fl x raw) (codes ++ (code_of x ∷ [])) k
        (noted_code x raw codes (length xs + k)
          (e ∙ ap (λ (t : ℕ). codes ++ replicate t 0) {y = suc (length xs + k)} (omega arith)) n)
        (omega (arith, length-append {0} codes (code_of x ∷ [])))
      ∙ append_assoc codes (code_of x ∷ []) (map code_of xs ++ replicate k 0)

  -- What `parse_data` leaves after a payload of at most 8 items.
  pub record Parsed (raw : Raw F) (xs : List Item) (raw' : Raw F) : Type 0 where
    pub data_set : raw'.imu ≡ apply_all fl xs raw.imu
    pub count : raw'.nitem_code ≡ length xs
    pub codes : raw'.item_code ≡ map code_of xs ++ replicate (8 - length xs) 0

  -- A payload that is a sequence of at most 8 items is parsed in the rounds that the loop has: the
  -- data are those of the items in order, and `item_code` lists their codes.
  pub parse_data-items :
      (xs : List Item) (rest : List ℕ) (raw : Raw F)
      → At raw.buf hdr_size (encode_all xs rest)
      → raw.len ≡ bytes_all xs
      → length xs ≤ 8
      → (raw' : Raw F) × (parse_data fl raw ≡ done raw') × Parsed raw xs raw'
  unfolding parse_data
  parse_data-items xs rest raw h total room =
      let start = record raw { item_code = replicate 8 0; nitem_code = 0 } in
      (
        accepted_all xs start,
        parse_loop-items xs rest raw.len start 0 h (omega (arith, total)) (omega arith)
            (omega (arith, total, length-le-bytes_all xs)),
        record {
          data_set = accepted_all-imu xs start;
          count = omega (arith, accepted_all-count xs start);
          codes =
              accepted_all-codes xs start [] (8 - length xs)
                (ap (λ (t : ℕ). replicate t 0) {x = 8} (omega arith)) refl;
        },
      )
