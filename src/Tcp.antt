-- ===== src/Tcp.antt =====
-- lib/libtcp/tcp_server.c: the rounds of a server. The calls of the network stack are recorded, the latest first, and what
-- they return is an argument; none stands for a negative result.
pub mod Counts
pub mod Closed
pub mod Send
mod Tests
use rfmarkit_esp_node.Base.{ℕ, Bool, true, false, Option, none, some, List, [], ◌∷◌, if◌then◌else◌}
use rfmarkit_esp_node.Esp.{EspErr, ok, fail}

-- The options that are set.
pub data SocketOption : Type 0 where
  so_reuseaddr so_keepalive tcp_keepidle tcp_keepintvl tcp_keepcnt : SocketOption
  so_rcvtimeo : ℕ → SocketOption

-- The calls, on the socket that the code passes; and the answer of those that open one.
pub data TcpCall : Type 0 where
  open_socket : Option ℕ → TcpCall
  bind_port listen_for : Option ℕ → ℕ → TcpCall
  set_option : Option ℕ → SocketOption → TcpCall
  accept_on : (server client : Option ℕ) → TcpCall
  interact shut_down close_socket : ℕ → TcpCall

-- `tcp_server_t`
pub record TcpServer : Type 0 where
  pub server_sock : Option ℕ
  pub port : ℕ
  pub max_listen : ℕ
  pub calls : List TcpCall

unfoldable pub call : TcpCall → TcpServer → TcpServer
call c t = record t { calls = c ∷ t.calls }

-- `handle_socket_err`
unfoldable pub handle_socket_err : Option ℕ → TcpServer → TcpServer
unfolding call
handle_socket_err none t = t
handle_socket_err (some s) t = call (close_socket s) (call (shut_down s) t)

-- `server_create_socket`
unfoldable pub server_create_socket : Option ℕ → TcpServer → EspErr × TcpServer
unfolding call handle_socket_err
server_create_socket none t =
    (fail, handle_socket_err none (call (open_socket none) (record t { server_sock = none })))
server_create_socket (some s) t =
    (ok, call (open_socket (some s)) (record t { server_sock = some s }))

-- `server_bind`, with whether the stack binds
unfoldable pub server_bind : Bool → TcpServer → EspErr × TcpServer
unfolding call handle_socket_err
server_bind true t = (ok, call (bind_port t.server_sock t.port) t)
server_bind false t =
    (fail, handle_socket_err t.server_sock (call (bind_port t.server_sock t.port) t))

-- `server_listen`, with whether the stack listens
unfoldable pub server_listen : Bool → TcpServer → EspErr × TcpServer
unfolding call handle_socket_err
server_listen true t = (ok, call (listen_for t.server_sock t.max_listen) t)
server_listen false t =
    (fail, handle_socket_err t.server_sock (call (listen_for t.server_sock t.max_listen) t))

-- `server_set_timeout`
unfoldable pub server_set_timeout : ℕ → TcpServer → EspErr × TcpServer
unfolding call
server_set_timeout timeout_s t = (
  ok,
  call (set_option t.server_sock (so_rcvtimeo timeout_s))
      (call (set_option t.server_sock so_reuseaddr) t),
)

-- `client_sock_set_keepalive`
unfoldable pub client_sock_set_keepalive : ℕ → TcpServer → EspErr × TcpServer
unfolding call
client_sock_set_keepalive sock t = (
  ok,
  call (set_option (some sock) tcp_keepcnt) (
      call (set_option (some sock) tcp_keepintvl) (
        call (set_option (some sock) tcp_keepidle) (call (set_option (some sock) so_keepalive) t))),
)

-- `server_accept`
unfoldable pub server_accept : Option ℕ → TcpServer → Option ℕ × TcpServer
unfolding call client_sock_set_keepalive
server_accept none t = (none, call (accept_on t.server_sock none) t)
server_accept (some c) t =
    (some c, (client_sock_set_keepalive c (call (accept_on t.server_sock (some c)) t)).1)

-- What the stack answers in a round; the clients are those that it accepts before it fails to.
pub record Round : Type 0 where
  pub socket : Option ℕ
  pub binds : Bool
  pub listens : Bool
  pub clients : List ℕ

-- The inner loop of `tcp_server_loop`
unfoldable pub accept_all : List ℕ → TcpServer → TcpServer
unfolding server_accept call
accept_all [] t = (server_accept none t).1
accept_all (c ∷ cs) t =
    accept_all cs
      (call (close_socket c) (call (shut_down c) (call (interact c) (server_accept (some c) t).1)))

-- A round of `tcp_server_loop`, and any number of rounds
unfoldable pub tcp_server_round : Round → TcpServer → TcpServer
unfolding server_create_socket server_bind server_listen server_set_timeout accept_all
    handle_socket_err
tcp_server_round r t =
    let bound = (server_bind r.binds (server_create_socket r.socket t).1).1 in
    let listening = (server_set_timeout 0 (server_listen r.listens bound).1).1 in
    let served = accept_all r.clients listening in handle_socket_err served.server_sock served

unfoldable pub tcp_server_loop : List Round → TcpServer → TcpServer
unfolding tcp_server_round
tcp_server_loop [] t = t
tcp_server_loop (r ∷ rs) t = tcp_server_loop rs (tcp_server_round r t)
