-- ===== src/Hi229/Input/Safety.antt =====
-- The buffer accesses of `ch_serial_input` of lib/hi229/hi229_serial.c.
use rfmarkit_esp_node.Base.{
  ℕ, ◌+◌, ◌*◌, ◌≤◌, ◌<◌, ◌≡◌, refl, ap, ◌∙◌, arith, Bool, true, false, some, List, length,
  length-set, set, get_or, get_elem?-defined, ltb, ◌==◌, if◌then◌else◌, inl, inr, Bool-cases,
  read_at, ◌&&◌, ◌-◌, ltb→lt, lt→ltb, not_ltb, ==_iff,
}
use rfmarkit_esp_node.Base.Outcome.{Outcome, done, undefined, out_of_fuel}
use rfmarkit_esp_node.Hi229.Raw.{FloatOps, Raw, u2, max_raw_len, hdr_size}
use rfmarkit_esp_node.Hi229.Crc.{crc16_update}
use rfmarkit_esp_node.Hi229.Parse.{parse_data}
use rfmarkit_esp_node.Hi229.Parse.Progress.{parse_data-ends, parse_data-SameFrame}
use rfmarkit_esp_node.Hi229.Input.{
  Status, error, sync_ch, parsed, decode_ch, complete, header, store_byte, ch_serial_input,
}

-- Between two bytes: the buffer has its 512 bytes, and a frame whose header is read is not complete.
pub record IsReady {F : Type 0} (raw : Raw F) : Type 0 where
  pub size : length raw.buf ≡ 512
  pub room : raw.nbyte < 512
  pub waits : 6 ≤ raw.nbyte → (raw.nbyte < raw.len + 6) × (raw.len ≤ 506)

u2-defined : (buf : List ℕ) (p : ℕ) → p + 1 < length buf → (v : ℕ) × (u2 buf p ≡ some v)
unfolding u2
u2-defined buf p h =
    let (a, lo) = get_elem?-defined buf p (omega arith) in
    let (b, hi) = get_elem?-defined buf (p + 1) h in (a + b * 256, rw (lo, hi))

module _ {F : Type 0} (fl : FloatOps F) where
  -- A byte leaves the parser ready, unless the payload of a frame is undefined to parse.
  abbrev pub IsSafe : Outcome (Status × Raw F) → Type 0
  IsSafe (done (s, raw)) = IsReady raw
  IsSafe undefined = (frame : Raw F) × (parse_data fl frame ≡ undefined)
  IsSafe out_of_fuel = ⊥

  IsSafe-if :
      (b : Bool) (x y : Outcome (Status × Raw F))
      → IsSafe x
      → IsSafe y
      → IsSafe (if b then x else y)
  IsSafe-if true x y h k = h
  IsSafe-if false x y h k = k

  parsed-IsSafe :
      (raw : Raw F)
      → length raw.buf ≡ 512
      → raw.nbyte ≡ 0
      → (m : Outcome (Raw F)) → parse_data fl raw ≡ m
      → IsSafe (parsed fl m)
  unfolding parsed
  parsed-IsSafe raw size idle (done raw') e =
      let same = parse_data-SameFrame fl raw raw' e in
      record {
        size = ap length same.same_buf ∙ size;
        room = omega (arith, same.same_nbyte);
        waits = λ h. absurd (omega (arith, same.same_nbyte));
      }
  parsed-IsSafe raw size idle undefined e = (raw, e)
  parsed-IsSafe raw size idle out_of_fuel e = parse_data-ends fl raw e

  decode_ch-IsSafe :
      (raw : Raw F) (crc_check : Bool)
      → length raw.buf ≡ 512
      → raw.nbyte ≡ 0
      → raw.len ≤ 506
      → IsSafe (decode_ch fl raw crc_check)
  unfolding decode_ch
  decode_ch-IsSafe raw false size idle short = parsed-IsSafe raw size idle (parse_data fl raw) refl
  decode_ch-IsSafe raw true size idle short =
      let (stored, found) = u2-defined raw.buf 4 (omega arith) in
      rw (not_ltb (length raw.buf) (hdr_size + raw.len) (omega arith), found)
        (IsSafe-if
          (crc16_update (crc16_update 0 (read_at raw.buf 0 4)) (read_at raw.buf 6 raw.len)
            == stored)
          (parsed fl (parse_data fl raw)) (done (error, raw))
          (parsed-IsSafe raw size idle (parse_data fl raw) refl)
          (record { size = size; room = omega arith; waits = λ h. absurd (omega arith) }))

  complete-IsSafe :
      (raw : Raw F) (crc_check : Bool)
      → length raw.buf ≡ 512
      → raw.nbyte ≤ 512
      → (6 ≤ raw.nbyte → raw.len ≤ 506)
      → IsSafe (complete fl raw crc_check)
  unfolding complete
  complete-IsSafe raw crc_check size room short =
      elim (Bool-cases (ltb raw.nbyte (raw.len + hdr_size))) [
        | inl more ↦ rw more (record {
          size = size;
          room = ground arith;
          waits = λ h. (ltb→lt raw.nbyte (raw.len + 6) more, short h);
        })
        | inr whole ↦
            rw whole (
              decode_ch-IsSafe (record raw { nbyte = 0 }) crc_check size refl
                (short (ground arith)))
      ]

  header-IsSafe :
      (raw : Raw F) (crc_check : Bool)
      → length raw.buf ≡ 512
      → raw.nbyte ≡ 6
      → IsSafe (header fl raw crc_check)
  unfolding header
  header-IsSafe raw crc_check size six =
      let (len, found) = u2-defined raw.buf 2 (omega arith) in
      rw found (elim (Bool-cases (ltb (max_raw_len - hdr_size) len)) [
        | inl long ↦
            rw long (record { size = size; room = omega arith; waits = λ h. absurd (omega arith) })
        | inr short ↦ rw short (
            complete-IsSafe (record raw { len = len }) crc_check size (omega arith)
              (λ h. ground arith))
      ])

  store_byte-IsSafe :
      (raw : Raw F) (byte : ℕ) (crc_check : Bool)
      → IsReady raw
      → IsSafe (store_byte fl raw byte crc_check)
  unfolding store_byte
  store_byte-IsSafe raw byte crc_check r =
      rw (lt→ltb raw.nbyte (length raw.buf) (omega (arith, r)))
        (elim (Bool-cases ((raw.nbyte + 1) == hdr_size)) [
          | inl six ↦
              rw six (header-IsSafe raw' crc_check size ((==_iff (raw.nbyte + 1) hdr_size).0 six))
          | inr other ↦ rw other (
              complete-IsSafe raw' crc_check size (omega (arith, r))
                (λ h. (r.waits (ground arith)).1))
        ])
    where
      raw' : Raw F
      raw' = record raw { buf = set raw.buf raw.nbyte byte; nbyte = raw.nbyte + 1 }

      size : length raw'.buf ≡ 512
      size = length-set raw.buf raw.nbyte byte ∙ r.size

  -- From a parser that is ready, any byte leads to a parser that is ready, or to something undefined together
  -- with a frame that `parse_data` does not survive; the fuel is never used up.
  pub ch_serial_input-IsSafe :
      (raw : Raw F) (byte : ℕ) (crc_check : Bool)
      → IsReady raw
      → IsSafe (ch_serial_input fl raw byte crc_check)
  unfolding ch_serial_input sync_ch
  ch_serial_input-IsSafe raw byte crc_check r =
      IsSafe-if (raw.nbyte == 0) _ _
        (IsSafe-if ((get_or synced 0 0 == 0x5a) && (get_or synced 1 0 == 0xa5)) _ _
          (record { size = size; room = omega arith; waits = λ h. absurd (omega arith) })
          (record { size = size; room = r.room; waits = r.waits }))
        (store_byte-IsSafe raw byte crc_check r)
    where
      synced : List ℕ
      synced = set (set raw.buf 0 (get_or raw.buf 1 0)) 1 byte

      size : length synced ≡ 512
      size =
          length-set (set raw.buf 0 (get_or raw.buf 1 0)) 1 byte
          ∙ length-set raw.buf 0 (get_or raw.buf 1 0)
          ∙ r.size
