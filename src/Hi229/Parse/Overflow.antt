-- ===== src/Hi229/Parse/Overflow.antt =====
-- The parser keeps the codes of a payload's items in 8 slots and does not test for more.
use rfmarkit_esp_node.Base.{
  ℕ, zero, suc, ◌+◌, ◌<◌, ◌≡◌, ◌∙◌, arith, none, List, [], ◌∷◌, ◌++◌, length, length-append, drop,
  replicate,
}
use rfmarkit_esp_node.Base.Outcome.{undefined}
use rfmarkit_esp_node.Hi229.Raw.{FloatOps, Raw, hdr_size}
use rfmarkit_esp_node.Hi229.Parse.{
  add_code, item, item_of, item_id, item_acc_raw, item_gyr_raw, item_mag_raw, item_rotation_eul,
  item_rotation_quat, item_pressure, item_imusol, parse_loop, parse_data,
}
use rfmarkit_esp_node.Hi229.Parse.Locality.{At}
use rfmarkit_esp_node.Hi229.Parse.Items.{
  Item, id, acc, gyr, mag, eul, quat, pressure, solution, encode, encode_all, encode_solution,
  triple2, quad4, word4, bytes_of,
}
use rfmarkit_esp_node.Hi229.Parse.Step.{accepted, item-accepted, item-code}
use rfmarkit_esp_node.Hi229.Parse.Payload.{
  bytes_all, next-At, parse_loop-step, bytes_of_pos, length-le-bytes_all,
}

module _ {F : Type 0} (fl : FloatOps F) where
  add_code-full : (raw : Raw F) (c : ℕ) → raw.nitem_code ≡ 8 → add_code raw c ≡ none
  unfolding add_code
  add_code-full raw c h = ground arith

  item-refused :
      (x : Item) (raw : Raw F) (ofs : ℕ) (rest : List ℕ)
      → At raw.buf (hdr_size + ofs) (encode x rest)
      → raw.nitem_code ≡ 8
      → item fl raw ofs ≡ none
  unfolding item_of encode
  item-refused (id b) raw ofs rest h full =
      item-code fl raw ofs 0x90 (b ∷ rest) h
      ∙ unfold item_id in rw (add_code-full (record raw { nimu = 1 }) 0x90 full)
  item-refused (acc v) raw ofs rest h full =
      item-code fl raw ofs 0xa0 (triple2 v rest) h
      ∙ unfold item_acc_raw in rw (add_code-full (record raw { nimu = 1 }) 0xa0 full)
  item-refused (gyr v) raw ofs rest h full =
      item-code fl raw ofs 0xb0 (triple2 v rest) h
      ∙ unfold item_gyr_raw in rw (add_code-full (record raw { nimu = 1 }) 0xb0 full)
  item-refused (mag v) raw ofs rest h full =
      item-code fl raw ofs 0xc0 (triple2 v rest) h
      ∙ unfold item_mag_raw in rw (add_code-full (record raw { nimu = 1 }) 0xc0 full)
  item-refused (eul v) raw ofs rest h full =
      item-code fl raw ofs 0xd0 (triple2 v rest) h
      ∙ unfold item_rotation_eul in rw (add_code-full raw 0xd0 full)
  item-refused (quat q) raw ofs rest h full =
      item-code fl raw ofs 0xd1 (quad4 q rest) h
      ∙ unfold item_rotation_quat in rw (add_code-full (record raw { nimu = 1 }) 0xd1 full)
  item-refused (pressure w) raw ofs rest h full =
      item-code fl raw ofs 0xf0 (word4 w rest) h
      ∙ unfold item_pressure in rw (add_code-full (record raw { nimu = 1 }) 0xf0 full)
  item-refused (solution s) raw ofs rest h full =
      item-code fl raw ofs 0x91 (drop 1 (encode_solution s rest)) h
      ∙ unfold item_imusol in rw (add_code-full (record raw { nimu = 1 }) 0x91 full)

  parse_loop-refused :
      (fuel : ℕ) (raw : Raw F) (ofs : ℕ)
      → ofs < raw.len
      → item fl raw ofs ≡ none
      → parse_loop fl (suc fuel) raw ofs ≡ undefined
  unfolding parse_loop
  parse_loop-refused fuel raw ofs h e = ground arith

  parse_loop-overflow :
      (xs : List Item) (y : Item) (ys : List Item) (rest : List ℕ) (fuel : ℕ) (raw : Raw F)
      (ofs : ℕ)
      → At raw.buf (hdr_size + ofs) (encode_all (xs ++ (y ∷ ys)) rest)
      → raw.len ≡ ofs + bytes_all (xs ++ (y ∷ ys))
      → raw.nitem_code + length xs ≡ 8
      → length xs < fuel
      → parse_loop fl fuel raw ofs ≡ undefined
  unfolding encode_all bytes_all
  parse_loop-overflow xs y ys rest zero raw ofs h total full enough = absurd (omega arith)
  parse_loop-overflow [] y ys rest (suc fuel) raw ofs h total full enough =
      parse_loop-refused fuel raw ofs (omega (arith, bytes_of_pos y))
        (item-refused y raw ofs (encode_all ys rest) h (omega arith))
  parse_loop-overflow (x ∷ xs) y ys rest (suc fuel) raw ofs h total full enough =
      parse_loop-step fl fuel raw (accepted fl x raw) ofs (ofs + bytes_of x)
        (omega (arith, bytes_of_pos x))
        (item-accepted fl x raw ofs (encode_all (xs ++ (y ∷ ys)) rest) h (omega arith))
      ∙ parse_loop-overflow xs y ys rest fuel (accepted fl x raw) (ofs + bytes_of x)
          (next-At fl x raw ofs (encode_all (xs ++ (y ∷ ys)) rest) h) (omega arith) (omega arith)
          (omega arith)

  -- A payload that is a sequence of nine items or more makes `parse_data` write past `item_code`.
  pub parse_data-overflow :
      (xs : List Item) (y : Item) (ys : List Item) (rest : List ℕ) (raw : Raw F)
      → At raw.buf hdr_size (encode_all (xs ++ (y ∷ ys)) rest)
      → raw.len ≡ bytes_all (xs ++ (y ∷ ys))
      → length xs ≡ 8
      → parse_data fl raw ≡ undefined
  unfolding parse_data
  parse_data-overflow xs y ys rest raw h total eight =
      parse_loop-overflow xs y ys rest raw.len
        (record raw { item_code = replicate 8 0; nitem_code = 0 }) 0 h (omega (arith, total))
        (omega arith)
        (omega (arith, total, length-le-bytes_all (xs ++ (y ∷ ys)), length-append {0} xs (y ∷ ys)))
