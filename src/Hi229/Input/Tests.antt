-- ===== src/Hi229/Input/Tests.antt =====
-- The theorem on the serial stream at a stray byte, the frame of a reading, and the same frame with a changed byte.
use Prim.{tt}
use rfmarkit_esp_node.Base.{ℕ, ◌≡◌, refl, arith, true, List, [], ◌∷◌, replicate}
use rfmarkit_esp_node.Base.Outcome.{done}
use rfmarkit_esp_node.Hi229.Raw.{FloatOps, Raw}
use rfmarkit_esp_node.Hi229.Parse.Items.{id, pressure, apply_all, bytes_of}
use rfmarkit_esp_node.Hi229.Parse.Payload.{bytes_all}
use rfmarkit_esp_node.Hi229.Input.{feed}
use rfmarkit_esp_node.Hi229.Input.Packets.{
  Packet, reading, damaged, stray, stream, statuses_all, items_of,
}
use rfmarkit_esp_node.Hi229.Input.Stream.{IsIdle, feed-stream}

abbrev bits : FloatOps ℕ
bits = record { of_bits = λ u. u; quotient = λ i k. k }

abbrev fresh : Raw ℕ
fresh = record {
  nbyte = 0;
  len = 0;
  buf = replicate 512 0;
  gwid = 0;
  nimu = 0;
  imu = record {
    id = 0;
    acc = (0, 0, 0);
    gyr = (0, 0, 0);
    mag = (0, 0, 0);
    eul = (0, 0, 0);
    quat = (0, 0, 0, 0);
    pressure = 0;
    timestamp = 0;
  };
  item_code = replicate 8 0;
  nitem_code = 0;
}

abbrev packets : List Packet
packets = stray 7 ∷ reading (id 7 ∷ pressure 5 ∷ []) ∷ damaged (0x90 ∷ []) 7 8 [] ∷ []

feed-stream_example :
    (after : Raw ℕ) × (feed bits fresh (stream packets) true ≡ done (statuses_all packets, after))
    × (after.imu ≡ apply_all bits (items_of packets) fresh.imu)
    × IsIdle bits after
unfolding bytes_all bytes_of
feed-stream_example =
    feed-stream bits packets fresh
      (
        omega arith,
        (
          (omega arith, omega arith),
          (((omega arith, tt), tt, omega arith, omega arith, omega arith, omega arith), tt),
        ),
      )
      (record { idle = refl; size = refl; no_sync = omega arith })
