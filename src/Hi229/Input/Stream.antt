-- ===== src/Hi229/Input/Stream.antt =====
-- A serial stream through `ch_serial_input` of lib/hi229/hi229_serial.c: each packet of it, and the whole.
use mathlib.Core.Path.{subst}
use mathlib.Core.List.{append-nil}
use rfmarkit_esp_node.Base.{
  ℕ, ◌+◌, ◌≡◌, ◌≢◌, refl, sym, ap, ◌∙◌, arith, Bool, true, false, List, [], ◌∷◌, ◌++◌, length,
  get_or, get_elem?, length-append, ◌==◌, if◌then◌else◌,
}
use rfmarkit_esp_node.Base.Outcome.{Outcome, done, undefined, out_of_fuel, ◌>>=◌}
use rfmarkit_esp_node.Hi229.Raw.{FloatOps, Raw}
use rfmarkit_esp_node.Hi229.Parse.{parse_data}
use rfmarkit_esp_node.Hi229.Parse.Items.{Item, encode_all, apply_all}
use rfmarkit_esp_node.Hi229.Parse.Payload.{parse_data-items}
use rfmarkit_esp_node.Hi229.Parse.Progress.{parse_data-SameFrame}
use rfmarkit_esp_node.Hi229.Input.{Status, message, error, parsed, ch_serial_input, sync_ch, feed}
use rfmarkit_esp_node.Hi229.Input.Steps.{
  synced, synced_first, synced_second, length-synced, feed-cons,
}
use rfmarkit_esp_node.Hi229.Input.Frame.{checksum, framed, decode_ch-framed, feed-frame}
use rfmarkit_esp_node.Hi229.Input.Packets.{
  Packet, reading, damaged, stray, bytes, IsPacket, AllPackets, stream, statuses, statuses_all,
  items_of, encode_all-append, length-encode_all, checksum-damaged, apply_all-append, six_more,
}

pub >>=-eq-done :
    {A B : Type 0} (m : Outcome A) (f : A → Outcome B) {b : B}
    → (m >>= f) ≡ done b
    → (a : A) × (m ≡ done a) × (f a ≡ done b)
>>=-eq-done (done a) f h = (a, refl, h)
>>=-eq-done undefined f h = cc
>>=-eq-done out_of_fuel f h = cc

module _ {F : Type 0} (fl : FloatOps F) where
  -- Between two packets: no frame is begun, and the last byte is not the first sync byte.
  pub record IsIdle (raw : Raw F) : Type 0 where
    pub idle : raw.nbyte ≡ 0
    pub size : length raw.buf ≡ 512
    pub no_sync : get_or raw.buf 1 0 ≢ 0x5a

  -- What packets do to an idle parser.
  pub record Took (raw : Raw F) (xs : List ℕ) (ss : List Status) (items : List Item) : Type 0 where
    pub after : Raw F
    pub fed : feed fl raw xs true ≡ done (ss, after)
    pub still : IsIdle after
    pub data_set : after.imu ≡ apply_all fl items raw.imu

  from_nil :
      (raw raw' : Raw F) (ss ts : List Status)
      → ◌≡◌ {A = Outcome (List Status × Raw F)} (done ([], raw)) (done (ss, raw'))
      → (ss ++ ts ≡ ts) × (raw ≡ raw')
  from_nil raw raw' [] ts e = (refl, cc)
  from_nil raw raw' (s ∷ ss) ts e = ground (arith, e)

  feed-append :
      (raw raw' raw'' : Raw F) (xs ys : List ℕ) (ss ts : List Status)
      → feed fl raw xs true ≡ done (ss, raw')
      → feed fl raw' ys true ≡ done (ts, raw'')
      → feed fl raw (xs ++ ys) true ≡ done (ss ++ ts, raw'')
  unfolding feed
  feed-append raw raw' raw'' [] ys ss ts e e' =
      let (none, same) = from_nil raw raw' ss ts e in
      ap (λ (r : Raw F). feed fl r ys true) same
      ∙ e'
      ∙ ap (λ (l : List Status). done (l, raw'')) (sym none)
  feed-append raw raw' raw'' (x ∷ xs) ys ss ts e e' =
      let (a, first, later) = >>=-eq-done (ch_serial_input fl raw x true) _ e in
      let (b, fed, end) = >>=-eq-done (feed fl a.1 xs true) _ later in
      let same : b.1 ≡ raw' = cc in
      let list : a.0 ∷ b.0 ≡ ss = cc in
      feed-cons fl true raw a.1 raw'' x (xs ++ ys) a.0 (b.0 ++ ts) first
        (feed-append a.1 raw' raw'' xs ys b.0 ts (fed ∙ ap (λ (r : Raw F). done (b.0, r)) same) e')
      ∙ ap (λ (l : List Status). done (l ++ ts, raw'')) list

  -- What a decoded frame leaves in the buffer.
  framed-IsIdle :
      (raw : Raw F) (payload post : List ℕ) (crc : ℕ)
      → raw.nbyte ≡ 0
      → raw.buf ≡ framed fl payload crc post
      → length payload + length post ≡ 506
      → IsIdle raw
  framed-IsIdle raw payload post crc none same full = record {
    idle = none;
    size = ap length same ∙ omega (arith, length-append {0} payload post);
    no_sync = λ e. omega (arith, e, ap (λ (b : List ℕ). get_or b 1 0) same);
  }

  chosen :
      (t u : Bool) (r : Raw F) (o : Outcome (Raw F))
      → t ≡ u
      → (if t then parsed fl o else done (error, r)) ≡ (if u then parsed fl o else done (error, r))
  chosen t u r o e = λ i. if e i then parsed fl o else done (error, r)

  pub reading-Took :
      (items : List Item) (raw : Raw F)
      → IsPacket (reading items)
      → IsIdle raw
      → Took raw (bytes (reading items)) (statuses (reading items)) items
  unfolding bytes statuses parsed
  reading-Took items raw h i =
      let payload = encode_all items [] in
      let crc = checksum payload in
      let f =
        feed-frame fl raw payload crc i.idle i.size (omega (arith, length-encode_all items)) in
      let r = record raw { len = length payload; buf = framed fl payload crc f.0; nbyte = 0 } in
      let p =
        parse_data-items fl items f.0 r
          (λ k.
            ap (get_elem? r.buf) {x = 6 + k} {y = six_more k} (omega arith)
            ∙ ap (λ (l : List ℕ). get_elem? l k) (encode_all-append items f.0))
          (length-encode_all items) h.0 in
      let same = parse_data-SameFrame fl r p.0 p.1 in
      record {
        after = p.0;
        fed = f.2 message p.0 (
            decode_ch-framed fl raw payload f.0 crc
            ∙ chosen (crc == crc) true r (parse_data fl r) (ground arith)
            ∙ ap (parsed fl) p.1);
        still = framed-IsIdle p.0 payload f.0 crc same.same_nbyte same.same_buf f.1;
        data_set = p.2.data_set;
      }

  damaged-Took :
      (pre post : List ℕ) (x y : ℕ) (raw : Raw F)
      → IsPacket (damaged pre x y post)
      → IsIdle raw
      → Took raw (bytes (damaged pre x y post)) (statuses (damaged pre x y post)) []
  unfolding bytes statuses apply_all
  damaged-Took pre post x y raw (hpre, hpost, hx, hy, ne, short) i =
      let payload = pre ++ y ∷ post in
      let crc = checksum (pre ++ x ∷ post) in
      let f = feed-frame fl raw payload crc i.idle i.size short in
      let r = record raw { len = length payload; buf = framed fl payload crc f.0; nbyte = 0 } in
      let other = checksum-damaged pre post x y hpre hpost hx hy ne in
      record {
        after = r;
        fed = f.2 error r (
            decode_ch-framed fl raw payload f.0 crc
            ∙ chosen (checksum payload == crc) false r (parse_data fl r) (ground (arith, other)));
        still = framed-IsIdle r payload f.0 crc refl refl f.1;
        data_set = refl;
      }

  stray-Took :
      (b : ℕ) (raw : Raw F)
      → b ≢ 0x5a
      → IsIdle raw
      → Took raw (bytes (stray b)) (statuses (stray b)) []
  unfolding bytes statuses apply_all feed ch_serial_input sync_ch
  stray-Took b raw ne i = record {
    after = record raw { buf = synced raw.buf b };
    fed = ground (arith, synced_first raw.buf b i.size, i.no_sync);
    still = record {
      idle = i.idle;
      size = length-synced raw.buf b ∙ i.size;
      no_sync = λ e. ne (sym (synced_second raw.buf b i.size) ∙ e);
    };
    data_set = refl;
  }

  pub packet-Took :
      (p : Packet) (raw : Raw F)
      → IsPacket p
      → IsIdle raw
      → Took raw (bytes p) (statuses p) (items_of (p ∷ []))
  unfolding items_of
  packet-Took (reading items) raw h i =
      subst (Took raw (bytes (reading items)) (statuses (reading items))) (sym (append-nil items))
        (reading-Took items raw h i)
  packet-Took (damaged pre x y post) raw h i = damaged-Took pre post x y raw h i
  packet-Took (stray b) raw h i = stray-Took b raw h i

  pub items_of-cons :
      (p : Packet) (ps : List Packet) → items_of (p ∷ ps) ≡ items_of (p ∷ []) ++ items_of ps
  unfolding items_of
  items_of-cons (reading items) ps =
      ap (λ (l : List Item). l ++ items_of ps) (sym (append-nil items))
  items_of-cons (damaged pre x y post) ps = refl
  items_of-cons (stray b) ps = refl

  -- From an idle parser, with the checksum checked: in a stream of frames of readings, frames in which one byte of the
  -- payload has changed, and stray bytes other than the first sync byte, the last byte of each reading brings a
  -- message, that of each damaged frame an error, and no other byte anything; the data are those of the items of the
  -- readings in order, and the parser is idle again.
  pub feed-stream :
      (ps : List Packet) (raw : Raw F)
      → AllPackets ps
      → IsIdle raw
      → (after : Raw F) × (feed fl raw (stream ps) true ≡ done (statuses_all ps, after))
        × (after.imu ≡ apply_all fl (items_of ps) raw.imu)
        × IsIdle after
  unfolding stream statuses_all feed items_of apply_all
  feed-stream [] raw h i = (raw, refl, refl, i)
  feed-stream (p ∷ ps) raw h i =
      let t = packet-Took p raw h.0 i in
      let (after, fed, data_set, still) = feed-stream ps t.after h.1 t.still in
      (
        after,
        feed-append raw t.after after (bytes p) (stream ps) (statuses p) (statuses_all ps) t.fed
            fed,
        data_set
            ∙ ap (apply_all fl (items_of ps)) t.data_set
            ∙ sym (apply_all-append fl (items_of (p ∷ [])) (items_of ps) raw.imu)
            ∙ ap (λ (l : List Item). apply_all fl l raw.imu) (sym (items_of-cons p ps)),
        still,
      )
