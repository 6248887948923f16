-- ===== src/Hi229/Driver/Tests.antt =====
-- The theorems on lib/hi229/hi229.c at concrete bytes. Floats are their bit patterns.
use rfmarkit_esp_node.Base.{ℕ, refl, ◌≡◌, arith, true, false, some, List, [], ◌∷◌, replicate}
use rfmarkit_esp_node.Base.Outcome.{done}
use rfmarkit_esp_node.Esp.{ok, fail}
use rfmarkit_esp_node.Node.{imu_status_unknown}
use rfmarkit_esp_node.Hi229.Raw.{FloatOps, ImuData, Raw}
use Prim.{tt}
use rfmarkit_esp_node.Hi229.Parse.Items.{id, pressure, apply_all, bytes_of}
use rfmarkit_esp_node.Hi229.Parse.Payload.{bytes_all}
use rfmarkit_esp_node.Hi229.Input.Packets.{Packet, reading, damaged, stray, stream, items_of}
use rfmarkit_esp_node.Hi229.Driver.Latest.{has_reading}
use rfmarkit_esp_node.Hi229.Driver.Start.{zero_data, hi229_interface_init, interface_init-poll-read}
use rfmarkit_esp_node.Hi229.Driver.{Hi229, poll, hi229_read}

abbrev bits : FloatOps ℕ
bits = record { of_bits = λ u. u; quotient = λ i k. k }

abbrev no_data : ImuData ℕ
no_data = record {
  id = 0;
  acc = (0, 0, 0);
  gyr = (0, 0, 0);
  mag = (0, 0, 0);
  eul = (0, 0, 0);
  quat = (0, 0, 0, 0);
  pressure = 0;
  timestamp = 0;
}

abbrev nothing_yet : Raw ℕ
nothing_yet = record {
  nbyte = 0;
  len = 0;
  buf = replicate 16 0;
  gwid = 0;
  nimu = 0;
  imu = no_data;
  item_code = replicate 8 0;
  nitem_code = 0;
}

abbrev sensor : Hi229 ℕ
sensor = record {
  initialized = false;
  addr = 0;
  baud = 115200;
  status = imu_status_unknown;
  enabled = true;
  raw = nothing_yet;
  raw_snapshot = no_data;
  raw_timestamp = 0;
  data_ready = false;
  calls = [];
}

abbrev packets : List Packet
packets = reading (id 7 ∷ pressure 5 ∷ []) ∷ damaged (0x90 ∷ []) 7 8 [] ∷ stray 7 ∷ []

-- From a driver that nothing has set up, whose memory holds anything.
interface_init-poll-read_example :
    (p' : Hi229 ℕ) × (poll bits 1 (hi229_interface_init bits true 115200 sensor) (stream packets)
      ≡ done p')
    × ((hi229_read p').0 ≡ ok)
    × ((hi229_read p').1 ≡ some (apply_all bits (items_of packets) (zero_data bits)))
    × ((hi229_read (hi229_read p').2).0 ≡ fail)
unfolding bytes_all bytes_of has_reading
interface_init-poll-read_example =
    interface_init-poll-read bits 1 true 115200 packets sensor refl
      (
        (omega arith, omega arith),
        (
          ((omega arith, tt), tt, omega arith, omega arith, omega arith, omega arith),
          (omega arith, tt),
        ),
      )
      refl
