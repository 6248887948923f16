-- ===== src/Hi229/Parse/Step.antt =====
-- One round of `parse_data` on an item that stands at the offset.
use rfmarkit_esp_node.Base.{
  ℕ, ◌+◌, ◌*◌, ◌/◌, ◌%◌, ◌<◌, ◌≡◌, ap, ◌∙◌, arith, Option, some, List, ◌∷◌, drop, set, get_elem?,
}
use rfmarkit_esp_node.Base.OptionDo.{◌>>=◌}
use rfmarkit_esp_node.Hi229.Raw.{
  FloatOps, ImuData, Raw, hdr_size, u2, u4, r4, i2_vector, r4_vector, r4_quaternion,
}
use rfmarkit_esp_node.Hi229.Parse.{
  add_code, node, item, item_of, item_id, item_acc_raw, item_gyr_raw, item_mag_raw,
  item_rotation_eul, item_rotation_quat, item_pressure, item_imusol,
}
use rfmarkit_esp_node.Hi229.Parse.Locality.{At, i2_vector-At, r4-At, r4_quaternion-At, node-At}
use rfmarkit_esp_node.Hi229.Parse.Items.{
  Item, id, acc, gyr, mag, eul, quat, pressure, solution, Solution, Triple, Quad, word2, word4,
  triple2, quad4, encode_solution, encode, code_of, bytes_of, apply, scaled_triple, float_quad,
  solution_data,
}

u2-word2 : (w : ℕ) (rest : List ℕ) → u2 (word2 w rest) 0 ≡ some w
unfolding u2
u2-word2 w rest = ap (λ (t : ℕ). some t) (omega arith)

u4-word4 : (w : ℕ) (rest : List ℕ) → u4 (word4 w rest) 0 ≡ some w
unfolding u4
u4-word4 w rest = ap (λ (t : ℕ). some t) (omega arith)

word4_value :
    (w : ℕ)
    → w % 65536 % 256 + w % 65536 / 256 * 256 + (w / 65536 % 256 + w / 65536 / 256 * 256) * 65536
      ≡ w
word4_value w = omega arith

-- the state after an item
abbrev pub counted : ℕ → Item → ℕ
counted n (eul v) = n
counted n _ = 1

module _ {F : Type 0} (fl : FloatOps F) where
  abbrev pub accepted : Item → Raw F → Raw F
  accepted x raw = record raw {
    nimu = counted raw.nimu x;
    imu = apply fl x raw.imu;
    item_code = set raw.item_code raw.nitem_code (code_of x);
    nitem_code = raw.nitem_code + 1;
  }

  add_code-room :
      (raw : Raw F) (c : ℕ)
      → raw.nitem_code < 8
      → add_code raw c
        ≡ some (record raw {
          item_code = set raw.item_code raw.nitem_code c;
          nitem_code = raw.nitem_code + 1;
        })
  unfolding add_code
  add_code-room raw c h = ground arith

  pub item-code :
      (raw : Raw F) (ofs c : ℕ) (rest : List ℕ)
      → At raw.buf (hdr_size + ofs) (c ∷ rest)
      → item fl raw ofs ≡ item_of fl c raw ofs
  unfolding item
  item-code raw ofs c rest h =
      ap (λ (x : Option ℕ). x >>= λ code. item_of fl code raw ofs)
        (ap (get_elem? raw.buf) (omega arith) ∙ h 0)

  i2_vector-triple2 :
      (c : ℕ) (v : Triple) (rest : List ℕ) (k₀ k₁ k₂ : ℕ)
      → i2_vector fl (c ∷ triple2 v rest) 1 k₀ k₁ k₂ ≡ some (scaled_triple fl v k₀ k₁ k₂)
  unfolding i2_vector u2
  i2_vector-triple2 c v rest k₀ k₁ k₂ = λ i. u2-word2 v.0 rest i >>= λ a.
      u2-word2 v.1 rest i >>= λ b.
      u2-word2 v.2 rest i >>= λ c. some (scaled_triple fl (a, b, c) k₀ k₁ k₂)

  r4_quaternion-quad4 :
      (c : ℕ) (q : Quad) (rest : List ℕ)
      → r4_quaternion fl (c ∷ quad4 q rest) 1 ≡ some (float_quad fl q)
  unfolding r4_quaternion u4
  r4_quaternion-quad4 c q rest = λ i. u4-word4 q.0 rest i >>= λ w. u4-word4 q.1 rest i >>= λ x.
      u4-word4 q.2 rest i >>= λ y. u4-word4 q.3 rest i >>= λ z. some (float_quad fl (w, x, y, z))

  r4-word4 : (c w : ℕ) (rest : List ℕ) → r4 fl (c ∷ word4 w rest) 1 ≡ some (fl.of_bits w)
  unfolding r4 u4
  r4-word4 c w rest = ap (λ (x : Option ℕ). x >>= λ u. some (fl.of_bits u)) (u4-word4 w rest)

  node-solution :
      (s : Solution) (rest : List ℕ)
      → node fl (encode_solution s rest) 0 ≡ some (solution_data fl s)
  unfolding node r4 r4_vector r4_quaternion u4
  node-solution s rest = simp word4_value

  abbrev filled :
      {A : Type 0} → Option (Raw F) → ℕ → Option A → (A → ImuData F) → Option (Raw F × ℕ)
  filled coded ofs' read put = do r ← coded; v ← read; some (record r { imu = put v }, ofs')

  -- A case that marks one IMU: the code is noted, a value is read, and the offset moves on.
  reading :
      {A : Type 0} (raw r : Raw F) (c ofs' : ℕ) (read : Option A) (a : A) (put : A → ImuData F)
      → add_code r c ≡ some raw
      → read ≡ some a
      → filled (add_code r c) ofs' read put ≡ some (record raw { imu = put a }, ofs')
  reading raw r c ofs' read a put noted found = λ i. filled (noted i) ofs' (found i) put

  item-vector :
      (c : ℕ) (v : Triple) (rest : List ℕ) (raw : Raw F) (ofs k₀ k₁ k₂ : ℕ)
      → At raw.buf (hdr_size + ofs) (c ∷ triple2 v rest)
      → i2_vector fl raw.buf (hdr_size + ofs + 1) k₀ k₁ k₂ ≡ some (scaled_triple fl v k₀ k₁ k₂)
  item-vector c v rest raw ofs k₀ k₁ k₂ h =
      i2_vector-At fl raw.buf (hdr_size + ofs) (c ∷ triple2 v rest) h 1 k₀ k₁ k₂
      ∙ i2_vector-triple2 c v rest k₀ k₁ k₂

  -- A round accepts the item that stands at the offset, if a slot is left for its code.
  pub item-accepted :
      (x : Item) (raw : Raw F) (ofs : ℕ) (rest : List ℕ)
      → At raw.buf (hdr_size + ofs) (encode x rest)
      → raw.nitem_code < 8
      → item fl raw ofs ≡ some (accepted x raw, ofs + bytes_of x)
  unfolding item_of encode code_of bytes_of apply
  item-accepted (id b) raw ofs rest h room =
      item-code raw ofs 0x90 (b ∷ rest) h
      ∙ unfold item_id in
        reading _ (record raw { nimu = 1 }) 0x90 _ _ b (λ v. record raw.imu { id = v })
          (add_code-room (record raw { nimu = 1 }) 0x90 room) (h 1)
  item-accepted (acc v) raw ofs rest h room =
      item-code raw ofs 0xa0 (triple2 v rest) h
      ∙ unfold item_acc_raw in
        reading _ (record raw { nimu = 1 }) 0xa0 _ _ (scaled_triple fl v 1000 1000 1000)
          (λ v. record raw.imu { acc = v }) (add_code-room (record raw { nimu = 1 }) 0xa0 room)
          (item-vector 0xa0 v rest raw ofs 1000 1000 1000 h)
  item-accepted (gyr v) raw ofs rest h room =
      item-code raw ofs 0xb0 (triple2 v rest) h
      ∙ unfold item_gyr_raw in
        reading _ (record raw { nimu = 1 }) 0xb0 _ _ (scaled_triple fl v 10 10 10)
          (λ v. record raw.imu { gyr = v }) (add_code-room (record raw { nimu = 1 }) 0xb0 room)
          (item-vector 0xb0 v rest raw ofs 10 10 10 h)
  item-accepted (mag v) raw ofs rest h room =
      item-code raw ofs 0xc0 (triple2 v rest) h
      ∙ unfold item_mag_raw in
        reading _ (record raw { nimu = 1 }) 0xc0 _ _ (scaled_triple fl v 10 10 10)
          (λ v. record raw.imu { mag = v }) (add_code-room (record raw { nimu = 1 }) 0xc0 room)
          (item-vector 0xc0 v rest raw ofs 10 10 10 h)
  item-accepted (eul v) raw ofs rest h room =
      item-code raw ofs 0xd0 (triple2 v rest) h
      ∙ unfold item_rotation_eul in
        reading _ raw 0xd0 _ _ (scaled_triple fl v 100 100 10) (λ v. record raw.imu { eul = v })
          (add_code-room raw 0xd0 room) (item-vector 0xd0 v rest raw ofs 100 100 10 h)
  item-accepted (quat q) raw ofs rest h room =
      item-code raw ofs 0xd1 (quad4 q rest) h
      ∙ unfold item_rotation_quat in
        reading _ (record raw { nimu = 1 }) 0xd1 _ _ (float_quad fl q)
          (λ v. record raw.imu { quat = v }) (add_code-room (record raw { nimu = 1 }) 0xd1 room)
          (r4_quaternion-At fl raw.buf (hdr_size + ofs) (0xd1 ∷ quad4 q rest) h 1
            ∙ r4_quaternion-quad4 0xd1 q rest)
  item-accepted (pressure w) raw ofs rest h room =
      item-code raw ofs 0xf0 (word4 w rest) h
      ∙ unfold item_pressure in
        reading _ (record raw { nimu = 1 }) 0xf0 _ _ (fl.of_bits w)
          (λ v. record raw.imu { pressure = v }) (add_code-room (record raw { nimu = 1 }) 0xf0 room)
          (r4-At fl raw.buf (hdr_size + ofs) (0xf0 ∷ word4 w rest) h 1 ∙ r4-word4 0xf0 w rest)
  item-accepted (solution s) raw ofs rest h room =
      item-code raw ofs 0x91 (drop 1 (encode_solution s rest)) h
      ∙ unfold item_imusol in
        reading _ (record raw { nimu = 1 }) 0x91 _ _ (solution_data fl s) (λ v. v)
          (add_code-room (record raw { nimu = 1 }) 0x91 room)
          (node-At fl raw.buf (hdr_size + ofs) (encode_solution s rest) h ∙ node-solution s rest)
