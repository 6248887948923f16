-- ===== src/Ble/Advertised.antt =====
-- components/ble/ble_srv.c: the runs of the events of the Bluetooth stack.
use rfmarkit_esp_node.Base.{ℕ, Bool, true, false, not, ◌≡◌, refl, arith, ◌==◌}
use rfmarkit_esp_node.Ble.{
  Ble, gap_connect, gap_disconnect, gap_adv_complete, gap_subscribe, gap_mtu, blehr_advertise,
  blehr_gap_event, blehr_on_sync,
}

-- The stack from its start on: it stops advertising before it reports a connection, the failure of one, or the end of
-- the advertising, and reports the end of a connection only where there is one. The first index says whether a peer is
-- connected. Each call of `blehr_advertise` succeeds.
pub data Runs : Bool → Ble → Type 0 where
  synced : (b : Ble) → Runs false (blehr_on_sync true true b)
  connected :
      (b : Ble) (handle : ℕ)
      → Runs false b
      → Runs true
          (blehr_gap_event true true (gap_connect 0 handle) (record b { advertises = false }))
  refused :
      (b : Ble) (status handle : ℕ)
      → Runs false b
      → (status == 0) ≡ false
      → Runs false
          (blehr_gap_event true true (gap_connect status handle) (record b { advertises = false }))
  disconnected : (b : Ble) → Runs true b → Runs false (blehr_gap_event true true gap_disconnect b)
  completed :
      (b : Ble)
      → Runs false b
      → Runs false (blehr_gap_event true true gap_adv_complete (record b { advertises = false }))
  subscribed : (t : Bool) (b : Ble) → Runs t b → Runs t (blehr_gap_event true true gap_subscribe b)
  mtu_changed : (t : Bool) (b : Ble) → Runs t b → Runs t (blehr_gap_event true true gap_mtu b)

-- In whatever order the stack reports connections, failures and ends, as long as it accepts each call that starts the
-- advertising: the node advertises exactly while no peer is connected.
pub Runs-advertises : (t : Bool) (b : Ble) → Runs t b → b.advertises ≡ not t
unfolding blehr_gap_event blehr_advertise blehr_on_sync
Runs-advertises _ _ (synced b) = refl
Runs-advertises _ _ (connected b handle r) = refl
Runs-advertises _ _ (refused b status handle r failed) = ground (arith, failed)
Runs-advertises _ _ (disconnected b r) = refl
Runs-advertises _ _ (completed b r) = refl
Runs-advertises _ _ (subscribed t b r) = Runs-advertises t b r
Runs-advertises _ _ (mtu_changed t b r) = Runs-advertises t b r
