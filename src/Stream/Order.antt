-- ===== src/Stream/Order.antt =====
-- components/apps/monitor.c and components/apps/network.c with lib/ring_buf/ring_buf.c: what the client sends.
use rfmarkit_esp_node.Base.{
  ℕ, ◌+◌, ◌^◌, ◌<◌, ◌≤◌, ◌≡◌, Bool, true, false, ◌&&◌, Option, none, some, List, [], ◌∷◌, ◌++◌,
  length,
}
use rfmarkit_esp_node.Esp.{is_ok}
use rfmarkit_esp_node.RingBuf.Inv.{IsValid}
use rfmarkit_esp_node.RingBuf.History.{IsKept}
use rfmarkit_esp_node.Udp.{Stack, udp_socket_send}
use rfmarkit_esp_node.Node.{Node}
use rfmarkit_esp_node.Stream.{Monitor, Client, is_stream, monitor_stream, client_stream}
use rfmarkit_esp_node.Stream.Session.{Session}

pair_in : {A B : Type 0} → A × B → Option (A × B) → A × B
pair_in d none = d
pair_in d (some p) = p

module _ (tag : ℕ → List ℕ → List ℕ) where
  -- A stretch of streaming: the monitor has entered its inner loop on a valid buffer and the client its own, and from
  -- then on the monitor takes rounds with a reading, which is pushed, or without one, and the client rounds in which it
  -- has caught up, or in which a datagram goes out of a buffer that it has not fallen behind by its size, up to a send
  -- that fails, if one does. There are fewer than 2^32 readings, and a datagram has the width of the buffer's items. The
  -- flag says whether a send has failed.
  pub data Streamed : Bool → List (List ℕ) → Monitor → Client → Node → Type 0 where
    begin :
        (m : Monitor) (c : Client) (n : Node)
        → m.seq ≡ 0
        → IsValid n.imu_ring_buf
        → n.imu_ring_buf.head ≡ 1
        → c.curr_index ≡ 1
        → c.sent ≡ []
        → Streamed false [] m c n
    read :
        (lost : Bool) (ds : List (List ℕ)) (d : List ℕ) (m m' : Monitor) (c : Client) (n n' : Node)
        → Streamed lost ds m c n
        → (n.imu_enabled && is_stream n.imu_mux) ≡ true
        → length ds + 1 < 2 ^ 32
        → length (tag m.seq d) ≡ n.imu_ring_buf.item_width
        → monitor_stream tag (some d) m n ≡ some (m', n')
        → Streamed lost (ds ++ (d ∷ [])) m' c n'
    no_reading :
        (lost : Bool) (ds : List (List ℕ)) (m m' : Monitor) (c : Client) (n n' : Node)
        → Streamed lost ds m c n
        → (n.imu_enabled && is_stream n.imu_mux) ≡ true
        → monitor_stream tag none m n ≡ some (m', n')
        → Streamed lost ds m' c n'
    caught_up :
        (ds : List (List ℕ)) (stack : Stack) (m : Monitor) (c c' : Client) (n n' : Node)
        → Streamed false ds m c n
        → n.active ≡ true
        → n.imu_ring_buf.head ≤ c.curr_index
        → client_stream stack c n ≡ some (c', n')
        → Streamed false ds m c' n'
    send :
        (ds : List (List ℕ)) (stack : Stack) (m : Monitor) (c c' : Client) (n n' : Node)
        → Streamed false ds m c n
        → n.active ≡ true
        → IsKept n.imu_ring_buf c.curr_index
        → is_ok (udp_socket_send stack c.socket).0 ≡ true
        → client_stream stack c n ≡ some (c', n')
        → Streamed false ds m c' n'
    fail :
        (ds : List (List ℕ)) (stack : Stack) (m : Monitor) (c c' : Client) (n n' : Node)
        → Streamed false ds m c n
        → n.active ≡ true
        → IsKept n.imu_ring_buf c.curr_index
        → is_ok (udp_socket_send stack c.socket).0 ≡ false
        → client_stream stack c n ≡ some (c', n')
        → Streamed true ds m c' n'
