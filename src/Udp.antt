-- ===== src/Udp.antt =====
-- lib/libudp/udp.c: a UDP socket with its flag. The socket calls of the network stack are outside the repository:
-- what they return is an argument, that they were made is recorded, the latest first.
pub mod Lifetime
mod Tests
use rfmarkit_esp_node.Base.{
  ℕ, Bool, true, false, not, ◌||◌, ◌&&◌, Option, none, some, List, [], ◌∷◌, ◌==◌, if◌then◌else◌,
}
use rfmarkit_esp_node.Base.Text.{same_text}
use rfmarkit_esp_node.Esp.{EspErr, ok, fail, no_mem, is_ok}

pub data Call : Type 0 where
  socket : ℕ → Call
  close : ℕ → Call
  bind : ℕ → ℕ → Call
  set_broadcast : ℕ → Bool → Call
  set_timeout : ℕ → ℕ → Call
  sendto : ℕ → Call
  recvfrom : ℕ → Call

-- `udp_socket_t`: `sock` is none for -1.
pub record UdpSocket : Type 0 where
  pub initialized : Bool
  pub sock : Option ℕ
  pub source_port : ℕ
  pub dest_addr : ℕ
  pub dest_port : ℕ
  pub calls : List Call

-- What the network stack answers: the new socket (none for a negative number) and whether each call succeeds.
-- `inet_addr` is its reading of a dotted address.
pub record Stack : Type 0 where
  pub new_sock : Option ℕ
  pub bind_ok : Bool
  pub option_ok : Bool
  pub send_ok : Bool
  pub recv_len : Option ℕ
  pub inet_addr : List ℕ → ℕ

unfoldable pub descriptor : Option ℕ → ℕ
descriptor none = 0
descriptor (some n) = n

unfoldable pub call : Call → UdpSocket → UdpSocket
call c o = record o { calls = c ∷ o.calls }

-- `udp_socket_bind_local_port`
unfoldable pub udp_socket_bind_local_port : Stack → UdpSocket → ℕ → EspErr × UdpSocket
unfolding call descriptor
udp_socket_bind_local_port stack o port =
    if o.initialized
    then (
      if stack.bind_ok then ok else fail,
      call (bind (descriptor o.sock) port) (record o { source_port = port }),
    )
    else (fail, o)

-- `udp_socket_set_destination`
unfoldable pub udp_socket_set_destination : Stack → UdpSocket → List ℕ → ℕ → EspErr × UdpSocket
udp_socket_set_destination stack o addr port =
    if o.initialized
    then (ok, record o { dest_addr = stack.inet_addr addr; dest_port = port })
    else (fail, o)

-- `udp_socket_set_broadcast`
unfoldable pub udp_socket_set_broadcast : Stack → UdpSocket → Bool → EspErr × UdpSocket
unfolding call descriptor
udp_socket_set_broadcast stack o broadcast =
    if o.initialized
    then (
      if stack.option_ok then ok else fail,
      call (set_broadcast (descriptor o.sock) broadcast) o,
    )
    else (fail, o)

-- `udp_socket_set_timeout`
unfoldable pub udp_socket_set_timeout : Stack → UdpSocket → ℕ → EspErr × UdpSocket
unfolding call descriptor
udp_socket_set_timeout stack o timeout_s =
    if o.initialized
    then (if stack.option_ok then ok else fail, call (set_timeout (descriptor o.sock) timeout_s) o)
    else (fail, o)

-- `udp_socket_send`
unfoldable pub udp_socket_send : Stack → UdpSocket → EspErr × UdpSocket
unfolding call descriptor
udp_socket_send stack o =
    if o.initialized
    then (if stack.send_ok then ok else no_mem, call (sendto (descriptor o.sock)) o)
    else (fail, o)

-- `udp_socket_recv`, with the length where the stack received something
unfoldable pub udp_socket_recv : Stack → UdpSocket → EspErr × Option ℕ × UdpSocket
unfolding call descriptor
udp_socket_recv stack o =
    if o.initialized
    then (
      elim stack.recv_len [ none ↦ fail | some n ↦ ok ],
      stack.recv_len,
      call (recvfrom (descriptor o.sock)) o,
    )
    else (fail, none, o)

-- `udp_socket_free`
unfoldable pub udp_socket_free : UdpSocket → EspErr × UdpSocket
unfolding call descriptor
udp_socket_free o =
    if o.initialized
    then (ok, record (call (close (descriptor o.sock)) o) { initialized = false; sock = none })
    else (fail, o)

-- 255.255.255.255
abbrev pub broadcast_text : List ℕ
broadcast_text = 50 ∷ 53 ∷ 53 ∷ 46 ∷ 50 ∷ 53 ∷ 53 ∷ 46 ∷ 50 ∷ 53 ∷ 53 ∷ 46 ∷ 50 ∷ 53 ∷ 53 ∷ []

-- The end of `udp_socket_init`: the destination, and the option if it is the broadcast address.
unfoldable pub configure : Stack → UdpSocket → List ℕ → ℕ → EspErr × UdpSocket
unfolding udp_socket_set_destination same_text udp_socket_set_broadcast
configure stack o addr port =
    let o' = (udp_socket_set_destination stack o addr port).1 in
    (ok, if same_text addr broadcast_text then (udp_socket_set_broadcast stack o' true).1 else o')

-- `handler_err` of `udp_socket_init`
unfoldable pub handler_err : UdpSocket → EspErr × UdpSocket
unfolding call descriptor
handler_err o =
    (fail, record (call (close (descriptor o.sock)) o) { initialized = false; sock = none })

-- What follows the creation of the socket.
unfoldable pub bind_and_configure : Stack → UdpSocket → ℕ → List ℕ → ℕ → EspErr × UdpSocket
unfolding udp_socket_bind_local_port configure handler_err
bind_and_configure stack o source_port addr port =
    let bound = udp_socket_bind_local_port stack o source_port in
    if source_port == 0
    then configure stack o addr port
    else if is_ok bound.0
    then configure stack bound.1 addr port
    else handler_err bound.1

unfoldable pub open_socket : Stack → Option ℕ → UdpSocket → ℕ → List ℕ → ℕ → EspErr × UdpSocket
unfolding bind_and_configure call
open_socket stack none o source_port addr port = (fail, record o { sock = none })
open_socket stack (some n) o source_port addr port =
    bind_and_configure stack (call (socket n) (record o { sock = some n; initialized = true }))
      source_port addr port

-- `udp_socket_init`, with an object and an address that are not NULL
unfoldable pub udp_socket_init : Stack → UdpSocket → ℕ → List ℕ → ℕ → EspErr × UdpSocket
unfolding open_socket
udp_socket_init stack o source_port addr port =
    if (port == 0) || o.initialized
    then (fail, o)
    else open_socket stack stack.new_sock o source_port addr port
