-- ===== src/Hi229/Parse/Progress.antt =====
-- The rounds of the loop of `parse_data` of lib/hi229/hi229_serial.c.
use rfmarkit_esp_node.Base.{
  ℕ, zero, suc, ◌+◌, ◌≤◌, ◌<◌, ◌≡◌, ◌≢◌, refl, arith, Option, none, some, inl, inr, ltb, ◌==◌,
  replicate, Option-cases, ◌∙◌,
}
use rfmarkit_esp_node.Base.OptionDo.{
  ◌>>=◌, Ensures, Ensures-bind, Ensures-read, Ensures-if, Ensures-some, Ensures-weaken,
}
use rfmarkit_esp_node.Base.Outcome.{done, out_of_fuel}
use rfmarkit_esp_node.Hi229.Raw.{FloatOps, Raw, hdr_size, u1, r4, i2_vector, r4_quaternion}
use rfmarkit_esp_node.Hi229.Parse.{
  add_code, node, item, item_of, item_id, item_acc_raw, item_gyr_raw, item_mag_raw,
  item_rotation_eul, item_rotation_quat, item_pressure, item_imusol, item_gwsol, gateway_nodes,
  parse_loop, parse_data,
}

-- What the parser never changes.
pub record SameFrame {F : Type 0} (raw raw' : Raw F) : Type 0 where
  pub same_len : raw'.len ≡ raw.len
  pub same_buf : raw'.buf ≡ raw.buf
  pub same_nbyte : raw'.nbyte ≡ raw.nbyte

module _ {F : Type 0} where
  SameFrame-trans : {a b c : Raw F} → SameFrame a b → SameFrame b c → SameFrame a c
  SameFrame-trans p q = record {
    same_len = q.same_len ∙ p.same_len;
    same_buf = q.same_buf ∙ p.same_buf;
    same_nbyte = q.same_nbyte ∙ p.same_nbyte;
  }

module _ {F : Type 0} where
  -- what a round may return, started at an offset
  abbrev Advanced : Raw F → ℕ → Raw F × ℕ → Type 0
  Advanced raw ofs r = (ofs < r.1) × SameFrame raw r.0

  abbrev NotBack : Raw F → ℕ → Raw F × ℕ → Type 0
  NotBack raw ofs r = (ofs ≤ r.1) × SameFrame raw r.0

  SameFrame-refl : (raw : Raw F) → SameFrame raw raw
  SameFrame-refl raw = record { same_len = refl; same_buf = refl; same_nbyte = refl }

  add_code-SameFrame : (raw : Raw F) (c : ℕ) → Ensures (SameFrame raw) (add_code raw c)
  unfolding add_code
  add_code-SameFrame raw c =
      Ensures-if (SameFrame raw) (ltb raw.nitem_code 8) (some _) none
        (record { same_len = refl; same_buf = refl; same_nbyte = refl }) tt

  -- A case that notes its code, reads one value and moves on by n bytes.
  noted :
      {A : Type 0} (raw marked : Raw F) (c ofs ofs' : ℕ) (read : Option A) (put : Raw F → A → Raw F)
      → SameFrame raw marked
      → ((r : Raw F) (a : A) → SameFrame r (put r a))
      → ofs < ofs'
      → Ensures (Advanced raw ofs) (add_code marked c >>= λ r. read >>= λ a. some (put r a, ofs'))
  noted raw marked c ofs ofs' read put same keeps further =
      Ensures-bind (SameFrame marked) (Advanced raw ofs) (add_code marked c) _
        (add_code-SameFrame marked c)
        λ r h.
          Ensures-read (Advanced raw ofs) read _
            λ a. (further, SameFrame-trans same (SameFrame-trans h (keeps r a)))

module _ {F : Type 0} (fl : FloatOps F) where
  gateway_nodes-NotBack :
      (left i : ℕ) (raw : Raw F) (ofs : ℕ)
      → Ensures (NotBack raw ofs) (gateway_nodes fl left i raw ofs)
  unfolding gateway_nodes
  gateway_nodes-NotBack zero i raw ofs = (omega arith, SameFrame-refl raw)
  gateway_nodes-NotBack (suc left) i raw ofs =
      Ensures-if (NotBack raw ofs) (i == 0) _ none
        (Ensures-read (NotBack raw ofs) (node fl raw.buf (hdr_size + ofs)) _ λ d.
          Ensures-weaken (NotBack (record raw { imu = d }) (ofs + 76)) (NotBack raw ofs)
            (gateway_nodes fl left (i + 1) (record raw { imu = d }) (ofs + 76))
            (gateway_nodes-NotBack left (i + 1) (record raw { imu = d }) (ofs + 76))
            λ r h. (
              omega (arith, h.0),
              record {
                same_len = h.1.same_len;
                same_buf = h.1.same_buf;
                same_nbyte = h.1.same_nbyte;
              },
            ))
        tt

  item_id-Advanced : (raw : Raw F) (ofs : ℕ) → Ensures (Advanced raw ofs) (item_id fl raw ofs)
  unfolding item_id
  item_id-Advanced raw ofs =
      noted raw (record raw { nimu = 1 }) 0x90 ofs (ofs + 2) (u1 raw.buf (hdr_size + ofs + 1))
        (λ r a. record r { imu = record raw.imu { id = a } })
        (record { same_len = refl; same_buf = refl; same_nbyte = refl })
        (λ r a. record { same_len = refl; same_buf = refl; same_nbyte = refl }) (omega arith)

  item_acc_raw-Advanced :
      (raw : Raw F) (ofs : ℕ) → Ensures (Advanced raw ofs) (item_acc_raw fl raw ofs)
  unfolding item_acc_raw
  item_acc_raw-Advanced raw ofs =
      noted raw (record raw { nimu = 1 }) 0xa0 ofs (ofs + 7)
        (i2_vector fl raw.buf (hdr_size + ofs + 1) 1000 1000 1000)
        (λ r a. record r { imu = record raw.imu { acc = a } })
        (record { same_len = refl; same_buf = refl; same_nbyte = refl })
        (λ r a. record { same_len = refl; same_buf = refl; same_nbyte = refl }) (omega arith)

  item_gyr_raw-Advanced :
      (raw : Raw F) (ofs : ℕ) → Ensures (Advanced raw ofs) (item_gyr_raw fl raw ofs)
  unfolding item_gyr_raw
  item_gyr_raw-Advanced raw ofs =
      noted raw (record raw { nimu = 1 }) 0xb0 ofs (ofs + 7)
        (i2_vector fl raw.buf (hdr_size + ofs + 1) 10 10 10)
        (λ r a. record r { imu = record raw.imu { gyr = a } })
        (record { same_len = refl; same_buf = refl; same_nbyte = refl })
        (λ r a. record { same_len = refl; same_buf = refl; same_nbyte = refl }) (omega arith)

  item_mag_raw-Advanced :
      (raw : Raw F) (ofs : ℕ) → Ensures (Advanced raw ofs) (item_mag_raw fl raw ofs)
  unfolding item_mag_raw
  item_mag_raw-Advanced raw ofs =
      noted raw (record raw { nimu = 1 }) 0xc0 ofs (ofs + 7)
        (i2_vector fl raw.buf (hdr_size + ofs + 1) 10 10 10)
        (λ r a. record r { imu = record raw.imu { mag = a } })
        (record { same_len = refl; same_buf = refl; same_nbyte = refl })
        (λ r a. record { same_len = refl; same_buf = refl; same_nbyte = refl }) (omega arith)

  item_rotation_eul-Advanced :
      (raw : Raw F) (ofs : ℕ) → Ensures (Advanced raw ofs) (item_rotation_eul fl raw ofs)
  unfolding item_rotation_eul
  item_rotation_eul-Advanced raw ofs =
      noted raw raw 0xd0 ofs (ofs + 7) (i2_vector fl raw.buf (hdr_size + ofs + 1) 100 100 10)
        (λ r a. record r { imu = record raw.imu { eul = a } })
        (record { same_len = refl; same_buf = refl; same_nbyte = refl })
        (λ r a. record { same_len = refl; same_buf = refl; same_nbyte = refl }) (omega arith)

  item_rotation_quat-Advanced :
      (raw : Raw F) (ofs : ℕ) → Ensures (Advanced raw ofs) (item_rotation_quat fl raw ofs)
  unfolding item_rotation_quat
  item_rotation_quat-Advanced raw ofs =
      noted raw (record raw { nimu = 1 }) 0xd1 ofs (ofs + 17)
        (r4_quaternion fl raw.buf (hdr_size + ofs + 1))
        (λ r a. record r { imu = record raw.imu { quat = a } })
        (record { same_len = refl; same_buf = refl; same_nbyte = refl })
        (λ r a. record { same_len = refl; same_buf = refl; same_nbyte = refl }) (omega arith)

  item_pressure-Advanced :
      (raw : Raw F) (ofs : ℕ) → Ensures (Advanced raw ofs) (item_pressure fl raw ofs)
  unfolding item_pressure
  item_pressure-Advanced raw ofs =
      noted raw (record raw { nimu = 1 }) 0xf0 ofs (ofs + 5) (r4 fl raw.buf (hdr_size + ofs + 1))
        (λ r a. record r { imu = record raw.imu { pressure = a } })
        (record { same_len = refl; same_buf = refl; same_nbyte = refl })
        (λ r a. record { same_len = refl; same_buf = refl; same_nbyte = refl }) (omega arith)

  item_imusol-Advanced :
      (raw : Raw F) (ofs : ℕ) → Ensures (Advanced raw ofs) (item_imusol fl raw ofs)
  unfolding item_imusol
  item_imusol-Advanced raw ofs =
      noted raw (record raw { nimu = 1 }) 0x91 ofs (ofs + 76) (node fl raw.buf (hdr_size + ofs))
        (λ r a. record r { imu = a })
        (record { same_len = refl; same_buf = refl; same_nbyte = refl })
        (λ r a. record { same_len = refl; same_buf = refl; same_nbyte = refl }) (omega arith)

  item_gwsol-Advanced : (raw : Raw F) (ofs : ℕ) → Ensures (Advanced raw ofs) (item_gwsol fl raw ofs)
  unfolding item_gwsol
  item_gwsol-Advanced raw ofs =
      Ensures-bind (SameFrame raw) (Advanced raw ofs) (add_code raw 0x62) _
        (add_code-SameFrame raw 0x62)
        λ r h. Ensures-read (Advanced raw ofs) (u1 raw.buf (hdr_size + ofs + 1)) _ λ gwid.
          Ensures-read (Advanced raw ofs) (u1 raw.buf (hdr_size + ofs + 2)) _ λ nimu.
            Ensures-weaken (NotBack (record r { gwid = gwid; nimu = nimu }) (ofs + 8))
              (Advanced raw ofs)
              (gateway_nodes fl nimu 0 (record r { gwid = gwid; nimu = nimu }) (ofs + 8))
              (gateway_nodes-NotBack nimu 0 (record r { gwid = gwid; nimu = nimu }) (ofs + 8))
              λ n k. (
                omega (arith, k.0),
                SameFrame-trans h (record {
                  same_len = k.1.same_len;
                  same_buf = k.1.same_buf;
                  same_nbyte = k.1.same_nbyte;
                }),
              )

  -- Every round that is defined moves the offset on and keeps the frame.
  item-Advanced : (raw : Raw F) (ofs : ℕ) → Ensures (Advanced raw ofs) (item fl raw ofs)
  unfolding item item_of
  item-Advanced raw ofs = Ensures-read P (u1 raw.buf (hdr_size + ofs)) _ λ code.
      Ensures-if P (code == 0x90) _ _ (item_id-Advanced raw ofs) (
        Ensures-if P (code == 0xa0) _ _ (item_acc_raw-Advanced raw ofs) (
          Ensures-if P (code == 0xb0) _ _ (item_gyr_raw-Advanced raw ofs) (
            Ensures-if P (code == 0xc0) _ _ (item_mag_raw-Advanced raw ofs) (
              Ensures-if P (code == 0xd0) _ _ (item_rotation_eul-Advanced raw ofs) (
                Ensures-if P (code == 0xd1) _ _ (item_rotation_quat-Advanced raw ofs) (
                  Ensures-if P (code == 0xf0) _ _ (item_pressure-Advanced raw ofs) (
                    Ensures-if P (code == 0x91) _ _ (item_imusol-Advanced raw ofs) (
                      Ensures-if P (code == 0x62) _ _ (item_gwsol-Advanced raw ofs)
                        (omega arith, SameFrame-refl raw)))))))))
    where
      P : Raw F × ℕ → Type 0
      P = Advanced raw ofs

  parse_loop-ends :
      (fuel : ℕ) (raw : Raw F) (ofs : ℕ)
      → raw.len ≤ ofs + fuel
      → parse_loop fl fuel raw ofs ≢ out_of_fuel
  unfolding parse_loop
  parse_loop-ends zero raw ofs h = ground arith
  parse_loop-ends (suc fuel) raw ofs h = elim (Option-cases (item fl raw ofs)) [
    | inl fails ↦ ground arith
    | inr (r, found) ↦
        let (further, same) =
          Ensures-some (Advanced raw ofs) (item fl raw ofs) (item-Advanced raw ofs) found in
        ground (arith, parse_loop-ends fuel r.0 r.1 (omega (arith, same.same_len)))
  ]

  -- Whatever the payload holds, `parse_data` does not run on: it ends, or does something undefined,
  -- within as many rounds as the payload has bytes.
  pub parse_data-ends : (raw : Raw F) → parse_data fl raw ≢ out_of_fuel
  unfolding parse_data
  parse_data-ends raw =
      parse_loop-ends raw.len (record raw { item_code = replicate 8 0; nitem_code = 0 }) 0
        (omega arith)

  parse_loop-SameFrame :
      (fuel : ℕ) (raw raw' : Raw F) (ofs : ℕ)
      → parse_loop fl fuel raw ofs ≡ done raw'
      → SameFrame raw raw'
  unfolding parse_loop
  parse_loop-SameFrame zero raw raw' ofs e = ground arith
  parse_loop-SameFrame (suc fuel) raw raw' ofs e = elim (Option-cases (item fl raw ofs)) [
    | inl fails ↦ ground arith
    | inr (r, found) ↦
        let (further, same) =
          Ensures-some (Advanced raw ofs) (item fl raw ofs) (item-Advanced raw ofs) found in
        ground (arith, parse_loop-SameFrame fuel r.0 raw' r.1)
  ]

  pub parse_data-SameFrame : (raw raw' : Raw F) → parse_data fl raw ≡ done raw' → SameFrame raw raw'
  unfolding parse_data
  parse_data-SameFrame raw raw' e =
      let same =
        parse_loop-SameFrame raw.len (record raw { item_code = replicate 8 0; nitem_code = 0 }) raw'
          0 e in
      record { same_len = same.same_len; same_buf = same.same_buf; same_nbyte = same.same_nbyte }
