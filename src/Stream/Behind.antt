-- ===== src/Stream/Behind.antt =====
-- components/apps/network.c with lib/ring_buf/ring_buf.c: a client that has fallen behind by the size of the buffer.
use rfmarkit_esp_node.Base.{
  ℕ, ◌+◌, ◌-◌, ◌≤◌, ◌<◌, ◌≡◌, refl, arith, true, false, some, List, [], ◌∷◌, ◌++◌, length, get_or,
  leb,
}
use rfmarkit_esp_node.Base.Int.{pos}
use rfmarkit_esp_node.Esp.{is_ok}
use rfmarkit_esp_node.RingBuf.{RingBuf}
use rfmarkit_esp_node.RingBuf.History.{Holds}
use rfmarkit_esp_node.RingBuf.Peek.{peek-stale, IsStale}
use rfmarkit_esp_node.Udp.{Stack, udp_socket_send}
use rfmarkit_esp_node.Node.{Node}
use rfmarkit_esp_node.Stream.{Client, client_send, client_peeked, client_stream}

ahead : (head index : ℕ) → index < head → leb head index ≡ false
ahead head index h = ground arith

IsStale-of : (r : RingBuf) (i : ℕ) → i + r.size ≤ r.head → IsStale r (pos i)
IsStale-of r i h = ground arith

-- A client whose index was overwritten sends the newest datagram, and moves on by one index.
pub client_stream-behind :
    (stack : Stack) (c : Client) (n : Node) {items : List (List ℕ)}
    → Holds n.imu_ring_buf items
    → 1 ≤ length items
    → c.curr_index + n.imu_ring_buf.size ≤ n.imu_ring_buf.head
    → c.curr_index < n.imu_ring_buf.head
    → n.active ≡ true
    → is_ok (udp_socket_send stack c.socket).0 ≡ true
    → client_stream stack c n
      ≡ some (
        record c {
          curr_index = c.curr_index + 1;
          socket = (udp_socket_send stack c.socket).1;
          sent = c.sent ++ (get_or items (length items - 1) [] ∷ []);
        },
        n,
      )
unfolding client_stream client_peeked client_send
client_stream-behind stack c n {items} h one late index active good = rw active (
    rw
      (peek-stale n.imu_ring_buf (pos c.curr_index) h one
        (IsStale-of n.imu_ring_buf c.curr_index late))
      (rw good (rw (ahead n.imu_ring_buf.head c.curr_index index) refl)))
