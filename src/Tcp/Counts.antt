-- ===== src/Tcp/Counts.antt =====
-- What the calls of a server open, close and serve.
use rfmarkit_esp_node.Base.{ℕ, ◌+◌, Option, none, some, List, [], ◌∷◌, ◌++◌, ◌==◌, if◌then◌else◌}
use rfmarkit_esp_node.Tcp.{
  TcpServer, TcpCall, Round, open_socket, accept_on, interact, close_socket,
}

unfoldable pub is_socket : ℕ → Option ℕ → ℕ
is_socket h none = 0
is_socket h (some s) = if s == h then 1 else 0

unfoldable pub occurs : ℕ → List ℕ → ℕ
unfolding is_socket
occurs h [] = 0
occurs h (c ∷ cs) = is_socket h (some c) + occurs h cs

-- How often the calls open a socket with this handle, and how often they close it.
unfoldable pub opened : ℕ → List TcpCall → ℕ
unfolding is_socket
opened h [] = 0
opened h (open_socket s ∷ cs) = is_socket h s + opened h cs
opened h (accept_on s c ∷ cs) = is_socket h c + opened h cs
opened h (_ ∷ cs) = opened h cs

unfoldable pub closed : ℕ → List TcpCall → ℕ
unfolding is_socket
closed h [] = 0
closed h (close_socket s ∷ cs) = is_socket h (some s) + closed h cs
closed h (_ ∷ cs) = closed h cs

-- The clients that were served, the latest first.
unfoldable pub served : List TcpCall → List ℕ
served [] = []
served (interact c ∷ cs) = c ∷ served cs
served (_ ∷ cs) = served cs

unfoldable pub reverse_onto : List ℕ → List ℕ → List ℕ
reverse_onto [] ys = ys
reverse_onto (x ∷ xs) ys = reverse_onto xs (x ∷ ys)

unfoldable pub clients_of : List Round → List ℕ
clients_of [] = []
clients_of (r ∷ rs) = r.clients ++ clients_of rs

-- The failures of binding and of listening on this socket.
unfoldable pub failures : ℕ → List Round → ℕ
unfolding is_socket
failures h [] = 0
failures h (r ∷ rs) =
    (if r.binds then 0 else is_socket h r.socket)
    + (if r.listens then 0 else is_socket h r.socket)
    + failures h rs

-- A server before its first round.
abbrev pub new_server : ℕ → ℕ → TcpServer
new_server port max_listen = record {
  server_sock = none;
  port = port;
  max_listen = max_listen;
  calls = [];
}
