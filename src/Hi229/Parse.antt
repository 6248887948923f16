-- ===== src/Hi229/Parse.antt =====
-- `parse_data` of lib/hi229/hi229_serial.c: the items of a payload, one round of the loop for each.
-- An item code past the 8 slots of `item_code`, a node past the one of `imu`, and a read past the
-- buffer are undefined.
pub mod Locality
pub mod Items
pub mod Step
pub mod Payload
pub mod Progress
pub mod Overflow
use rfmarkit_esp_node.Base.{
  ℕ, zero, suc, ◌+◌, ◌%◌, Option, none, some, List, set, replicate, ltb, ◌==◌, if◌then◌else◌,
}
use rfmarkit_esp_node.Base.OptionDo.{◌>>=◌}
use rfmarkit_esp_node.Base.Outcome.{Outcome, done, undefined, out_of_fuel}
use rfmarkit_esp_node.Hi229.Raw.{
  FloatOps, ImuData, Raw, hdr_size, u1, u4, r4, i2_vector, r4_vector, r4_quaternion,
}

module _ {F : Type 0} where
  -- `raw->item_code[raw->nitem_code++] = code`
  unfoldable pub add_code : Raw F → ℕ → Option (Raw F)
  add_code raw code =
      if ltb raw.nitem_code 8
      then some (record raw {
        item_code = set raw.item_code raw.nitem_code code;
        nitem_code = raw.nitem_code + 1;
      })
      else none

module _ {F : Type 0} (fl : FloatOps F) where
  -- the 76 bytes of one node, from its item code at p
  unfoldable pub node : List ℕ → ℕ → Option (ImuData F)
  node buf p = do
    id ← u1 buf (p + 1)
    pressure ← r4 fl buf (p + 4)
    timestamp ← u4 buf (p + 8)
    acc ← r4_vector fl buf (p + 12)
    gyr ← r4_vector fl buf (p + 24)
    mag ← r4_vector fl buf (p + 36)
    eul ← r4_vector fl buf (p + 48)
    quat ← r4_quaternion fl buf (p + 60)
    some (record {
      id = id;
      acc = acc;
      gyr = gyr;
      mag = mag;
      eul = eul;
      quat = quat;
      pressure = pressure;
      timestamp = timestamp;
    })

  -- the loop over the nodes of a gateway, `left` of them to go, the next being `imu[i]`
  unfoldable pub gateway_nodes : ℕ → ℕ → Raw F → ℕ → Option (Raw F × ℕ)
  gateway_nodes zero i raw ofs = some (raw, ofs)
  gateway_nodes (suc left) i raw ofs =
      if i == 0
      then (do
        d ← node raw.buf (hdr_size + ofs)
        gateway_nodes left (i + 1) (record raw { imu = d }) (ofs + 76))
      else none

  -- the cases of the switch; each returns the state and the offset after the item
  unfoldable pub item_id : Raw F → ℕ → Option (Raw F × ℕ)
  unfolding add_code
  item_id raw ofs = do
    r ← add_code (record raw { nimu = 1 }) 0x90
    id ← u1 raw.buf (hdr_size + ofs + 1)
    some (record r { imu = record raw.imu { id = id } }, ofs + 2)

  unfoldable pub item_acc_raw : Raw F → ℕ → Option (Raw F × ℕ)
  unfolding add_code
  item_acc_raw raw ofs = do
    r ← add_code (record raw { nimu = 1 }) 0xa0
    v ← i2_vector fl raw.buf (hdr_size + ofs + 1) 1000 1000 1000
    some (record r { imu = record raw.imu { acc = v } }, ofs + 7)

  unfoldable pub item_gyr_raw : Raw F → ℕ → Option (Raw F × ℕ)
  unfolding add_code
  item_gyr_raw raw ofs = do
    r ← add_code (record raw { nimu = 1 }) 0xb0
    v ← i2_vector fl raw.buf (hdr_size + ofs + 1) 10 10 10
    some (record r { imu = record raw.imu { gyr = v } }, ofs + 7)

  unfoldable pub item_mag_raw : Raw F → ℕ → Option (Raw F × ℕ)
  unfolding add_code
  item_mag_raw raw ofs = do
    r ← add_code (record raw { nimu = 1 }) 0xc0
    v ← i2_vector fl raw.buf (hdr_size + ofs + 1) 10 10 10
    some (record r { imu = record raw.imu { mag = v } }, ofs + 7)

  unfoldable pub item_rotation_eul : Raw F → ℕ → Option (Raw F × ℕ)
  unfolding add_code
  item_rotation_eul raw ofs = do
    r ← add_code raw 0xd0
    v ← i2_vector fl raw.buf (hdr_size + ofs + 1) 100 100 10
    some (record r { imu = record raw.imu { eul = v } }, ofs + 7)

  unfoldable pub item_rotation_quat : Raw F → ℕ → Option (Raw F × ℕ)
  unfolding add_code
  item_rotation_quat raw ofs = do
    r ← add_code (record raw { nimu = 1 }) 0xd1
    q ← r4_quaternion fl raw.buf (hdr_size + ofs + 1)
    some (record r { imu = record raw.imu { quat = q } }, ofs + 17)

  unfoldable pub item_pressure : Raw F → ℕ → Option (Raw F × ℕ)
  unfolding add_code
  item_pressure raw ofs = do
    r ← add_code (record raw { nimu = 1 }) 0xf0
    x ← r4 fl raw.buf (hdr_size + ofs + 1)
    some (record r { imu = record raw.imu { pressure = x } }, ofs + 5)

  unfoldable pub item_imusol : Raw F → ℕ → Option (Raw F × ℕ)
  unfolding add_code
  item_imusol raw ofs = do
    r ← add_code (record raw { nimu = 1 }) 0x91
    d ← node raw.buf (hdr_size + ofs)
    some (record r { imu = d }, ofs + 76)

  unfoldable pub item_gwsol : Raw F → ℕ → Option (Raw F × ℕ)
  unfolding add_code
  item_gwsol raw ofs = do
    r ← add_code raw 0x62
    gwid ← u1 raw.buf (hdr_size + ofs + 1)
    nimu ← u1 raw.buf (hdr_size + ofs + 2)
    gateway_nodes nimu 0 (record r { gwid = gwid; nimu = nimu }) (ofs + 8)

  -- `switch (p[ofs])`; an unknown byte is passed over
  unfoldable pub item_of : ℕ → Raw F → ℕ → Option (Raw F × ℕ)
  item_of code raw ofs =
      if code == 0x90
      then item_id raw ofs
      else if code == 0xa0
      then item_acc_raw raw ofs
      else if code == 0xb0
      then item_gyr_raw raw ofs
      else if code == 0xc0
      then item_mag_raw raw ofs
      else if code == 0xd0
      then item_rotation_eul raw ofs
      else if code == 0xd1
      then item_rotation_quat raw ofs
      else if code == 0xf0
      then item_pressure raw ofs
      else if code == 0x91
      then item_imusol raw ofs
      else if code == 0x62
      then item_gwsol raw ofs
      else some (raw, ofs + 1)

  unfoldable pub item : Raw F → ℕ → Option (Raw F × ℕ)
  item raw ofs = do code ← u1 raw.buf (hdr_size + ofs); item_of code raw ofs

  -- `while (ofs < raw->len)`
  unfoldable pub parse_loop : ℕ → Raw F → ℕ → Outcome (Raw F)
  parse_loop zero raw ofs = if ltb ofs raw.len then out_of_fuel else done raw
  parse_loop (suc fuel) raw ofs =
      let next : Outcome (Raw F) = elim (item raw ofs) [
        | none ↦ undefined
        | some (raw', ofs') ↦ parse_loop fuel raw' ofs'
      ] in
      if ltb ofs raw.len then next else done raw

  -- `parse_data`, which always returns 1; as many rounds as there are bytes
  unfoldable pub parse_data : Raw F → Outcome (Raw F)
  parse_data raw = parse_loop raw.len (record raw { item_code = replicate 8 0; nitem_code = 0 }) 0
