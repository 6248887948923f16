-- ===== src/Stream/Tests.antt =====
-- The theorems on components/apps/monitor.c and components/apps/network.c at a concrete stretch of streaming.
use rfmarkit_esp_node.Base.{ℕ, ◌≡◌, refl, arith, true, none, some, List, [], ◌∷◌, ◌+◌, false}
use rfmarkit_esp_node.RingBuf.{RingBuf}
use rfmarkit_esp_node.RingBuf.Inv.{IsValid, pushed}
use rfmarkit_esp_node.RingBuf.History.{Holds, fresh-Holds, push-Holds}
use rfmarkit_esp_node.Udp.{UdpSocket, Stack, udp_socket_send}
use rfmarkit_esp_node.Node.{Node, sys_set_operation_mode}
use rfmarkit_esp_node.Node.Example.{a_node, a_ring_buf}
use rfmarkit_esp_node.Stream.{Monitor, Client, client_stream}
use rfmarkit_esp_node.Stream.Behind.{client_stream-behind}

-- a datagram that is its sequence number
abbrev number_only : ℕ → List ℕ → List ℕ
number_only seq reading = seq ∷ []

abbrev monitoring : Monitor
monitoring = record { streaming = true; seq = 0 }

abbrev connected : UdpSocket
connected = record {
  initialized = true;
  sock = some 3;
  source_port = 0;
  dest_addr = 7;
  dest_port = 18888;
  calls = [];
}

abbrev working : Stack
working = record {
  new_sock = some 3;
  bind_ok = true;
  option_ok = true;
  send_ok = true;
  recv_len = none;
  inet_addr = λ text. 7;
}

abbrev client : Client
client = record { sending = true; curr_index = 1; socket = connected; sent = [] }

a_ring_buf-IsValid : IsValid a_ring_buf
a_ring_buf-IsValid = record {
  several = omega arith;
  storage = omega arith;
  slot = refl;
  started = omega arith;
}

-- the node after one reading
abbrev one_read : Node
one_read = record a_node { imu_ring_buf = pushed a_ring_buf (0 ∷ []) }

abbrev one_sent : Client
one_sent = record {
  sending = true;
  curr_index = 2;
  socket = (udp_socket_send working connected).1;
  sent = (0 ∷ []) ∷ [];
}

-- the node after a second reading, and the client after a send that fails for it
abbrev two_read : Node
two_read = record one_read { imu_ring_buf = pushed one_read.imu_ring_buf (1 ∷ []) }

abbrev no_memory : Stack
no_memory = record working { send_ok = false }

abbrev aborted : Client
aborted = record one_sent {
  sending = false;
  curr_index = 3;
  socket = (udp_socket_send no_memory one_sent.socket).1;
}

abbrev stopped : Node
stopped =
    sys_set_operation_mode false (record two_read { missed_frames = two_read.missed_frames + 1 })

-- a client that waits at index 1 while five readings come
abbrev five_read : RingBuf
five_read =
    pushed (pushed (pushed (pushed (pushed a_ring_buf (0 ∷ [])) (1 ∷ [])) (2 ∷ [])) (3 ∷ []))
      (4 ∷ [])

five_read-Holds : Holds five_read ((0 ∷ []) ∷ (1 ∷ []) ∷ (2 ∷ []) ∷ (3 ∷ []) ∷ (4 ∷ []) ∷ [])
five_read-Holds =
    push-Holds _ (4 ∷ [])
      (push-Holds _ (3 ∷ [])
        (push-Holds _ (2 ∷ [])
          (push-Holds _ (1 ∷ [])
            (push-Holds _ (0 ∷ []) (fresh-Holds a_ring_buf a_ring_buf-IsValid refl) refl) refl)
          refl)
        refl)
      refl

client_stream-behind_example :
    client_stream working client (record a_node { imu_ring_buf = five_read })
    ≡ some (
      record {
        sending = true;
        curr_index = 2;
        socket = (udp_socket_send working connected).1;
        sent = (4 ∷ []) ∷ [];
      },
      record a_node { imu_ring_buf = five_read },
    )
unfolding udp_socket_send
client_stream-behind_example =
    client_stream-behind working client (record a_node { imu_ring_buf = five_read }) five_read-Holds
      (omega arith) (omega arith) (omega arith) refl refl
