-- ===== src/Hi229/Input.antt =====
-- `sync_ch`, `decode_ch` and `ch_serial_input` of lib/hi229/hi229_serial.c: the state machine that takes
-- the serial stream byte by byte.
pub mod Safety
pub mod Steps
pub mod Frame
pub mod Packets
pub mod Stream
mod Tests
use rfmarkit_esp_node.Base.{
  ℕ, ◌+◌, ◌-◌, Bool, true, false, ◌&&◌, List, [], ◌∷◌, length, get_or, set, read_at, ltb, ◌==◌,
  if◌then◌else◌,
}
use rfmarkit_esp_node.Base.Outcome.{Outcome, done, undefined, defined, ◌>>=◌}
use rfmarkit_esp_node.Hi229.Raw.{FloatOps, Raw, max_raw_len, hdr_size, u2}
use rfmarkit_esp_node.Hi229.Crc.{crc16_update}
use rfmarkit_esp_node.Hi229.Parse.{parse_data}

-- The results of `ch_serial_input`: 0, 1 and -1.
pub data Status : Type 0 where
  no_message message error : Status

-- `sync_ch`: the buffer after it, and whether the two sync bytes stand in it
unfoldable pub sync_ch : List ℕ → ℕ → List ℕ × Bool
sync_ch buf byte =
    let buf' = set (set buf 0 (get_or buf 1 0)) 1 byte in
    (buf', (get_or buf' 0 0 == 0x5a) && (get_or buf' 1 0 == 0xa5))

module _ {F : Type 0} (fl : FloatOps F) where
  unfoldable pub parsed : Outcome (Raw F) → Outcome (Status × Raw F)
  parsed m = do raw ← m; done (message, raw)

  -- `decode_ch`: the checksum covers the first 4 bytes and the payload
  unfoldable pub decode_ch : Raw F → Bool → Outcome (Status × Raw F)
  unfolding parsed
  decode_ch raw false = parsed (parse_data fl raw)
  decode_ch raw true = if ltb (length raw.buf) (hdr_size + raw.len) then undefined else (do
    stored ← defined (u2 raw.buf 4)
    let crc = crc16_update (crc16_update 0 (read_at raw.buf 0 4)) (read_at raw.buf 6 raw.len)
    if crc == stored then parsed (parse_data fl raw) else done (error, raw))

  -- after the byte was stored and the length read: decode once the whole frame is there
  unfoldable pub complete : Raw F → Bool → Outcome (Status × Raw F)
  unfolding decode_ch
  complete raw crc_check =
      if ltb raw.nbyte (raw.len + hdr_size)
      then done (no_message, raw)
      else decode_ch (record raw { nbyte = 0 }) crc_check

  -- the length field, once the header is there
  unfoldable pub header : Raw F → Bool → Outcome (Status × Raw F)
  unfolding complete
  header raw crc_check = do
    len ← defined (u2 raw.buf 2)
    let raw' = record raw { len = len }
    if ltb (max_raw_len - hdr_size) len
        then done (error, record raw' { nbyte = 0 })
        else complete raw' crc_check

  unfoldable pub store_byte : Raw F → ℕ → Bool → Outcome (Status × Raw F)
  unfolding header complete
  store_byte raw byte crc_check =
      let raw' = record raw { buf = set raw.buf raw.nbyte byte; nbyte = raw.nbyte + 1 } in
      if ltb raw.nbyte (length raw.buf)
      then (if raw'.nbyte == hdr_size then header raw' crc_check else complete raw' crc_check)
      else undefined

  -- `ch_serial_input`
  unfoldable pub ch_serial_input : Raw F → ℕ → Bool → Outcome (Status × Raw F)
  unfolding store_byte
  ch_serial_input raw byte crc_check =
      let (buf, found) = sync_ch raw.buf byte in
      if raw.nbyte == 0
      then (if found
          then done (no_message, record raw { buf = buf; nbyte = 2 })
          else done (no_message, record raw { buf = buf }))
      else store_byte raw byte crc_check

  -- A stream of bytes: the statuses in order, and the state after the last byte.
  unfoldable pub feed : Raw F → List ℕ → Bool → Outcome (List Status × Raw F)
  feed raw [] crc_check = done ([], raw)
  feed raw (x ∷ xs) crc_check = do
    (status, raw') ← ch_serial_input raw x crc_check
    (statuses, raw'') ← feed raw' xs crc_check
    done (status ∷ statuses, raw'')
