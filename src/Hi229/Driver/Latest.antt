-- ===== src/Hi229/Driver/Latest.antt =====
-- The serial stream up to the reading that `hi229_read` of lib/hi229/hi229.c returns.
use mathlib.Core.Path.{subst}
use mathlib.Core.List.{append-nil}
use rfmarkit_esp_node.Base.{
  ℕ, ◌≡◌, refl, sym, ap, ◌∙◌, arith, Bool, true, false, ◌||◌, some, List, [], ◌∷◌, ◌++◌,
}
use rfmarkit_esp_node.Base.Outcome.{Outcome, done, undefined, out_of_fuel, ◌>>=◌}
use rfmarkit_esp_node.Esp.{ok, fail}
use rfmarkit_esp_node.Hi229.Raw.{FloatOps}
use rfmarkit_esp_node.Hi229.Parse.Items.{Item, encode_all, apply_all}
use rfmarkit_esp_node.Hi229.Input.Packets.{
  Packet, reading, damaged, stray, bytes, IsPacket, AllPackets, stream, statuses, items_of,
  apply_all-append,
}
use rfmarkit_esp_node.Hi229.Input.Stream.{IsIdle, Took, packet-Took, reading-Took, items_of-cons}
use rfmarkit_esp_node.Hi229.Driver.{Hi229, take_message, poll_byte, poll, hi229_read}
use rfmarkit_esp_node.Hi229.Driver.Quiet.{
  quiet, only_last, only_last-ends_with, quiet-ends_with, poll-quiet, poll-last,
}

or_true : (t : Bool) → (t || true) ≡ true
or_true true = refl
or_true false = refl

-- Whether the stream has a reading.
unfoldable pub has_reading : List Packet → Bool
has_reading [] = false
has_reading (reading items ∷ ps) = true
has_reading (damaged pre x y post ∷ ps) = has_reading ps
has_reading (stray b ∷ ps) = has_reading ps

module _ {F : Type 0} (fl : FloatOps F) (now : ℕ) where
  after_byte :
      (xs ys : List ℕ)
      → ((p : Hi229 F) → poll fl now p (xs ++ ys) ≡ (poll fl now p xs >>= λ p'. poll fl now p' ys))
      → (o : Outcome (Hi229 F))
      → (o >>= λ p'. poll fl now p' (xs ++ ys))
        ≡ ((o >>= λ p'. poll fl now p' xs) >>= λ p'. poll fl now p' ys)
  after_byte xs ys ih (done p) = ih p
  after_byte xs ys ih undefined = refl
  after_byte xs ys ih out_of_fuel = refl

  poll-append :
      (xs ys : List ℕ) (p : Hi229 F)
      → poll fl now p (xs ++ ys) ≡ (poll fl now p xs >>= λ p'. poll fl now p' ys)
  unfolding poll
  poll-append [] ys p = refl
  poll-append (x ∷ xs) ys p = after_byte xs ys (poll-append xs ys) (poll_byte fl now p x)

  -- An unread reading is the latest.
  abbrev pub IsLatest : Hi229 F → Type 0
  IsLatest p = p.data_ready ≡ true → p.raw_snapshot ≡ p.raw.imu

  -- What packets do to the driver.
  record Polled (p : Hi229 F) (xs : List ℕ) (t : Bool) (items : List Item) : Type 0 where
    after : Hi229 F
    polled : poll fl now p xs ≡ done after
    still : IsIdle fl after.raw
    data_set : after.raw.imu ≡ apply_all fl items p.raw.imu
    latest : IsLatest after
    ready : after.data_ready ≡ (p.data_ready || t)

  reading-Polled :
      (items : List Item) (p : Hi229 F)
      → Took fl p.raw (bytes (reading items)) (statuses (reading items)) items
      → Polled p (bytes (reading items)) true items
  unfolding take_message statuses only_last
  reading-Polled items p t = record {
    after = take_message now (record p { raw = t.after });
    polled =
        poll-last fl now (bytes (reading items)) p (statuses (reading items)) t.after t.fed
          (only_last-ends_with (encode_all items []));
    still = t.still;
    data_set = t.data_set;
    latest = λ e. refl;
    ready = ground arith;
  }

  quiet-Polled :
      (q : Packet) (p : Hi229 F)
      → quiet (statuses q) ≡ true
      → Took fl p.raw (bytes q) (statuses q) []
      → IsLatest p
      → Polled p (bytes q) false []
  unfolding apply_all
  quiet-Polled q p silent t l = record {
    after = record p { raw = t.after };
    polled = poll-quiet fl now (bytes q) p (statuses q) t.after t.fed silent;
    still = t.still;
    data_set = t.data_set;
    latest = λ e. l e ∙ sym t.data_set;
    ready = ground arith;
  }

  packet-Polled :
      (q : Packet) (p : Hi229 F)
      → IsPacket q
      → IsIdle fl p.raw
      → IsLatest p
      → Polled p (bytes q) (has_reading (q ∷ [])) (items_of (q ∷ []))
  unfolding statuses quiet has_reading items_of
  packet-Polled (reading items) p h i l =
      subst (Polled p (bytes (reading items)) true) (sym (append-nil items))
        (reading-Polled items p (reading-Took fl items p.raw h i))
  packet-Polled (damaged pre x y post) p h i l =
      quiet-Polled (damaged pre x y post) p (quiet-ends_with (pre ++ y ∷ post))
        (packet-Took fl (damaged pre x y post) p.raw h i) l
  packet-Polled (stray b) p h i l =
      quiet-Polled (stray b) p refl (packet-Took fl (stray b) p.raw h i) l

  has_reading-cons :
      (t : Bool) (q : Packet) (qs : List Packet)
      → ((t || has_reading (q ∷ [])) || has_reading qs) ≡ (t || has_reading (q ∷ qs))
  unfolding has_reading
  has_reading-cons t (reading items) qs = ground arith
  has_reading-cons t (damaged pre x y post) qs = ground arith
  has_reading-cons t (stray b) qs = ground arith

  stream-Polled :
      (qs : List Packet) (p : Hi229 F)
      → AllPackets qs
      → IsIdle fl p.raw
      → IsLatest p
      → Polled p (stream qs) (has_reading qs) (items_of qs)
  unfolding stream has_reading items_of apply_all poll
  stream-Polled [] p h i l = record {
    after = p;
    polled = refl;
    still = i;
    data_set = refl;
    latest = l;
    ready = ground arith;
  }
  stream-Polled (q ∷ qs) p h i l =
      let t = packet-Polled q p h.0 i l in
      let r = stream-Polled qs t.after h.1 t.still t.latest in
      record {
        after = r.after;
        polled =
            poll-append (bytes q) (stream qs) p
            ∙ ap (λ (o : Outcome (Hi229 F)). o >>= λ p'. poll fl now p' (stream qs)) t.polled
            ∙ r.polled;
        still = r.still;
        data_set =
            r.data_set
            ∙ ap (apply_all fl (items_of qs)) t.data_set
            ∙ sym (apply_all-append fl (items_of (q ∷ [])) (items_of qs) p.raw.imu)
            ∙ ap (λ (items : List Item). apply_all fl items p.raw.imu)
                (sym (items_of-cons fl q qs));
        latest = r.latest;
        ready =
            r.ready
            ∙ ap (λ (t : Bool). t || has_reading qs) t.ready
            ∙ has_reading-cons p.data_ready q qs;
      }

  -- After the task has polled a stream of frames of readings, frames in which one byte of the payload has changed, and
  -- stray bytes other than the first sync byte, with at least one reading among them: a read succeeds with the data of
  -- the items of all readings in order, and the next read fails. Before it the parser is idle, and a reading that is
  -- unread is the latest.
  pub hi229_read-poll :
      (qs : List Packet) (p : Hi229 F)
      → AllPackets qs
      → has_reading qs ≡ true
      → IsIdle fl p.raw
      → IsLatest p
      → (p' : Hi229 F) × (poll fl now p (stream qs) ≡ done p')
        × ((hi229_read p').0 ≡ ok)
        × ((hi229_read p').1 ≡ some (apply_all fl (items_of qs) p.raw.imu))
        × ((hi229_read (hi229_read p').2).0 ≡ fail)
  unfolding hi229_read
  hi229_read-poll qs p h some_reading i l =
      let r = stream-Polled qs p h i l in
      let ready : r.after.data_ready ≡ true =
        r.ready ∙ ap (λ (t : Bool). p.data_ready || t) some_reading ∙ or_true p.data_ready in
      (
        r.after,
        r.polled,
        rw ready refl,
        rw ready (ap some (r.latest ready ∙ r.data_set)),
        rw ready refl,
      )
