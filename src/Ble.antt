-- ===== src/Ble.antt =====
-- components/ble/ble_srv.c: the advertising of the node. The calls of NimBLE are outside the repository: what they return
-- is an argument.
pub mod Gatt
pub mod Advertised
pub mod Provision
pub mod Overflow
pub mod Kept
mod Tests
use rfmarkit_esp_node.Base.{ℕ, Bool, true, false, ◌&&◌, if◌then◌else◌, ◌==◌}

-- The events of the connections that the handler looks at, and any other; a status of 0 is a connection.
pub data GapEvent : Type 0 where
  gap_connect : (status conn_handle : ℕ) → GapEvent
  gap_disconnect gap_adv_complete gap_subscribe gap_mtu other_event : GapEvent

-- `conn_handle`, and whether the stack advertises.
pub record Ble : Type 0 where
  pub conn_handle : ℕ
  pub advertises : Bool

-- `blehr_advertise`, with whether the stack accepts the data and whether it begins
unfoldable pub blehr_advertise : (fields_set started : Bool) → Ble → Ble
blehr_advertise fields_set started b =
    if fields_set && started then record b { advertises = true } else b

-- `blehr_gap_event`
unfoldable pub blehr_gap_event : (fields_set started : Bool) → GapEvent → Ble → Ble
unfolding blehr_advertise
blehr_gap_event fields_set started (gap_connect status handle) b =
    record (if status == 0 then b else blehr_advertise fields_set started b) {
      conn_handle = handle;
    }
blehr_gap_event fields_set started gap_disconnect b = blehr_advertise fields_set started b
blehr_gap_event fields_set started gap_adv_complete b = blehr_advertise fields_set started b
blehr_gap_event fields_set started gap_subscribe b = b
blehr_gap_event fields_set started gap_mtu b = b
blehr_gap_event fields_set started other_event b = b

-- `blehr_on_sync`, whose address is there
unfoldable pub blehr_on_sync : (fields_set started : Bool) → Ble → Ble
unfolding blehr_advertise
blehr_on_sync fields_set started b = blehr_advertise fields_set started b
