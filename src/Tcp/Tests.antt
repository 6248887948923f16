-- ===== src/Tcp/Tests.antt =====
-- The theorems on lib/libtcp at a text that is taken in two parts, and at two rounds: one with two clients, and one whose socket cannot be bound.
use rfmarkit_esp_node.Base.{◌+◌, ◌≡◌, refl, arith, length, true, false, some, List, [], ◌∷◌}
use rfmarkit_esp_node.Tcp.{Round, tcp_server_loop}
use rfmarkit_esp_node.Tcp.Counts.{
  opened, closed, served, reverse_onto, clients_of, failures, is_socket, new_server,
}
use rfmarkit_esp_node.Base.Outcome.{done}
use rfmarkit_esp_node.Tcp.Send.{send_all, sum, starts, send_all-starts}
use rfmarkit_esp_node.Tcp.Closed.{tcp_server_loop-closed}

abbrev two_rounds : List Round
two_rounds =
    record { socket = some 3; binds = true; listens = true; clients = 4 ∷ 5 ∷ [] }
    ∷ record { socket = some 3; binds = false; listens = false; clients = [] }
    ∷ []

tcp_server_loop-closed_example :
    (closed 3 (tcp_server_loop two_rounds (new_server 2333 1)).calls
      ≡ opened 3 (tcp_server_loop two_rounds (new_server 2333 1)).calls + 2)
    × (served (tcp_server_loop two_rounds (new_server 2333 1)).calls ≡ 5 ∷ 4 ∷ [])
unfolding failures reverse_onto clients_of is_socket
tcp_server_loop-closed_example = tcp_server_loop-closed two_rounds 2333 1 3

-- The text 1 2 3 is sent as 1 2 1.
send_all-starts_example :
    (send_all (1 ∷ 2 ∷ 3 ∷ []) (some 2 ∷ some 1 ∷ []) ≡ done (1 ∷ 2 ∷ 1 ∷ []))
    × (length (starts (1 ∷ 2 ∷ 3 ∷ []) (2 ∷ 1 ∷ [])) ≡ 3)
unfolding sum starts
send_all-starts_example = send_all-starts (1 ∷ 2 ∷ 3 ∷ []) (2 ∷ 1 ∷ []) (omega arith) refl
