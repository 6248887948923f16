-- ===== src/Stream/Rounds.antt =====
-- A round of the inner loops of components/apps/monitor.c and components/apps/network.c, by its outcome.
use rfmarkit_esp_node.Base.{
  ℕ, ◌+◌, ◌-◌, ◌^◌, ◌≤◌, ◌<◌, ◌≡◌, ◌∙◌, refl, ap, arith, Bool, true, false, ◌&&◌, if◌then◌else◌,
  Option, none, some, List, [], ◌∷◌, ◌++◌, get_or, leb,
}
use rfmarkit_esp_node.Base.OptionDo.{◌>>=◌}
use rfmarkit_esp_node.Base.Int.{ℤ, pos}
use rfmarkit_esp_node.Esp.{EspErr, is_ok}
use rfmarkit_esp_node.RingBuf.{peek}
use rfmarkit_esp_node.RingBuf.Inv.{IsValid, pushed, push-defined}
use rfmarkit_esp_node.RingBuf.History.{Holds, IsKept}
use rfmarkit_esp_node.RingBuf.Peek.{peek-kept}
use rfmarkit_esp_node.Udp.{Stack, udp_socket_send}
use rfmarkit_esp_node.Node.{Node, sys_set_operation_mode}
use rfmarkit_esp_node.Stream.{
  handle_error, is_no_mem, Monitor, Client, is_stream, put, monitor_read, monitor_stream,
  client_send, client_peeked, client_stream,
}

ahead : (head index : ℕ) → index < head → leb head index ≡ false
ahead head index h = ground arith

level : (head index : ℕ) → head ≤ index → leb head index ≡ true
level head index h = ground arith

module _ (tag : ℕ → List ℕ → List ℕ) where
  pub monitor_stream-reading :
      (d : List ℕ) (m : Monitor) (n : Node)
      → (n.imu_enabled && is_stream n.imu_mux) ≡ true
      → IsValid n.imu_ring_buf
      → n.imu_ring_buf.head < 2 ^ 63 - 1
      → m.seq + 1 < 2 ^ 32
      → monitor_stream tag (some d) m n
        ≡ some (
          record m { seq = m.seq + 1 },
          record n { imu_ring_buf = pushed n.imu_ring_buf (tag m.seq d) },
        )
  unfolding monitor_stream monitor_read put
  monitor_stream-reading d m n live v small few = rw live (
      rw (push-defined n.imu_ring_buf (tag m.seq d) v small) (
        ap
          (λ (k : ℕ).
            some (
              record m { seq = k },
              record n { imu_ring_buf = pushed n.imu_ring_buf (tag m.seq d) },
            ))
          (omega arith)))

  pub monitor_stream-none :
      (m : Monitor) (n : Node)
      → (n.imu_enabled && is_stream n.imu_mux) ≡ true
      → monitor_stream tag none m n ≡ some (m, n)
  unfolding monitor_stream monitor_read
  monitor_stream-none m n live = rw live refl

pub client_stream-caught_up :
    (stack : Stack) (c : Client) (n : Node)
    → n.active ≡ true
    → n.imu_ring_buf.head ≤ c.curr_index
    → client_stream stack c n ≡ some (c, n)
unfolding client_stream
client_stream-caught_up stack c n active even =
    let read = peek (some n.imu_ring_buf) true (pos c.curr_index) >>= λ peeked.
    some (client_peeked stack peeked c n) in
    ap
      (λ (b : Bool).
        if b
        then (if leb n.imu_ring_buf.head c.curr_index then some (c, n) else read)
        else some (handle_error c n))
      active
    ∙ ap (λ (b : Bool). if b then some (c, n) else read)
        (level n.imu_ring_buf.head c.curr_index even)

-- The client after a datagram went out.
abbrev pub sent_one : Stack → List ℕ → Client → Client
sent_one stack item c = record c {
  curr_index = c.curr_index + 1;
  socket = (udp_socket_send stack c.socket).1;
  sent = c.sent ++ (item ∷ []);
}

pub client_stream-kept :
    (stack : Stack) (c : Client) (n : Node) (items : List (List ℕ))
    → Holds n.imu_ring_buf items
    → IsKept n.imu_ring_buf c.curr_index
    → n.active ≡ true
    → is_ok (udp_socket_send stack c.socket).0 ≡ true
    → client_stream stack c n ≡ some (sent_one stack (get_or items (c.curr_index - 1) []) c, n)
unfolding client_stream client_peeked client_send
client_stream-kept stack c n items h k active good = rw active (
    rw (peek-kept n.imu_ring_buf c.curr_index h k)
      (rw good (rw (ahead n.imu_ring_buf.head c.curr_index k.1) refl)))

-- The client after a send that failed.
abbrev pub not_sent : Stack → Client → Client
not_sent stack c = record c {
  sending = false;
  curr_index = c.curr_index + 1;
  socket = (udp_socket_send stack c.socket).1;
}

abbrev pub counted : Bool → Node → Node
counted no_memory n = if no_memory then record n { missed_frames = n.missed_frames + 1 } else n

handle_error-active :
    (no_memory : Bool) (c : Client) (n : Node)
    → n.active ≡ true
    → handle_error c (counted no_memory n)
      ≡ (record c { sending = false }, sys_set_operation_mode false (counted no_memory n))
unfolding handle_error
handle_error-active true c n active = rw active refl
handle_error-active false c n active = rw active refl

client_send-lost :
    (stack : Stack) (item : List ℕ) (c : Client) (n : Node)
    → n.active ≡ true
    → is_ok (udp_socket_send stack c.socket).0 ≡ false
    → client_send stack item c n ≡ (
      not_sent stack c,
      sys_set_operation_mode false (counted (is_no_mem (udp_socket_send stack c.socket).0) n),
    )
unfolding client_send
client_send-lost stack item c n active bad = rw bad (
    handle_error-active (is_no_mem (udp_socket_send stack c.socket).0)
      (record c { curr_index = c.curr_index + 1; socket = (udp_socket_send stack c.socket).1 }) n
      active)

pub client_stream-lost :
    (stack : Stack) (c : Client) (n : Node) (items : List (List ℕ))
    → Holds n.imu_ring_buf items
    → IsKept n.imu_ring_buf c.curr_index
    → n.active ≡ true
    → is_ok (udp_socket_send stack c.socket).0 ≡ false
    → client_stream stack c n
      ≡ some (
        not_sent stack c,
        sys_set_operation_mode false (counted (is_no_mem (udp_socket_send stack c.socket).0) n),
      )
unfolding client_stream client_peeked
client_stream-lost stack c n items h k active bad =
    let read = peek (some n.imu_ring_buf) true (pos c.curr_index) >>= λ peeked.
    some (client_peeked stack peeked c n) in
    ap
      (λ (b : Bool).
        if b
        then (if leb n.imu_ring_buf.head c.curr_index then some (c, n) else read)
        else some (handle_error c n))
      active
    ∙ ap (λ (b : Bool). if b then some (c, n) else read)
        (ahead n.imu_ring_buf.head c.curr_index k.1)
    ∙ ap
        (λ (o : Option (EspErr × Option (List ℕ × ℤ))).
          o >>= λ peeked. some (client_peeked stack peeked c n))
        (peek-kept n.imu_ring_buf c.curr_index h k)
    ∙ ap some (client_send-lost stack (get_or items (c.curr_index - 1) []) c n active bad)
