-- ===== src/Udp/Lifetime.antt =====
-- The lifetime of the socket of lib/libudp/udp.c, over the calls of the network stack.
use rfmarkit_esp_node.Base.{
  ℕ, Bool, true, false, ◌&&◌, ◌||◌, ◌≡◌, refl, arith, Option, none, some, List, [], ◌∷◌, ◌==◌,
  if◌then◌else◌,
}
use rfmarkit_esp_node.Base.Text.{same_text}
use rfmarkit_esp_node.Esp.{EspErr, fail, is_ok}
use rfmarkit_esp_node.Udp.{
  Call, socket, close, bind, set_broadcast, set_timeout, sendto, recvfrom, UdpSocket, Stack, call,
  descriptor, udp_socket_bind_local_port, udp_socket_set_destination, udp_socket_set_broadcast,
  udp_socket_set_timeout, udp_socket_send, udp_socket_recv, udp_socket_free, configure,
  broadcast_text, handler_err, bind_and_configure, open_socket, udp_socket_init,
}

-- The socket that is open after these calls, the latest first.
unfoldable pub open_after : List Call → Option ℕ
open_after [] = none
open_after (socket n ∷ cs) = some n
open_after (close n ∷ cs) = none
open_after (c ∷ cs) = open_after cs

-- The socket that a call other than the opening of one is made on.
unfoldable pub target : Call → ℕ
target (socket n) = n
target (close n) = n
target (bind n port) = n
target (set_broadcast n b) = n
target (set_timeout n t) = n
target (sendto n) = n
target (recvfrom n) = n

unfoldable pub is_socket : ℕ → Option ℕ → Bool
is_socket n none = false
is_socket n (some m) = n == m

unfoldable pub is_none : Option ℕ → Bool
is_none none = true
is_none (some m) = false

-- A socket is opened only when none is open; every other call is made on the socket that is open.
unfoldable pub in_turn : List Call → Bool
unfolding open_after target is_socket is_none
in_turn [] = true
in_turn (socket n ∷ cs) = is_none (open_after cs) && in_turn cs
in_turn (c ∷ cs) = is_socket (target c) (open_after cs) && in_turn cs

-- Where the flag is set, the socket that is open is the one in the object; where it is not, none is open.
unfoldable pub held_socket : UdpSocket → Option ℕ
held_socket o = if o.initialized then o.sock else none

pub record Sound (o : UdpSocket) : Type 0 where
  pub opened : open_after o.calls ≡ held_socket o
  pub present : (o.initialized && is_none o.sock) ≡ false
  pub ordered : in_turn o.calls ≡ true

module _ (stack : Stack) (o : UdpSocket) (h : Sound o) where
  bind-Sound : (port : ℕ) → Sound (udp_socket_bind_local_port stack o port).1
  unfolding udp_socket_bind_local_port call descriptor open_after target is_socket is_none in_turn
      held_socket
  bind-Sound port = record {
    opened = ground (arith, h.opened, h.present);
    present = ground (arith, h.present);
    ordered = ground (arith, h.opened, h.present, h.ordered);
  }

  destination-Sound :
      (addr : List ℕ) (port : ℕ) → Sound (udp_socket_set_destination stack o addr port).1
  unfolding udp_socket_set_destination open_after target is_socket is_none in_turn held_socket
  destination-Sound addr port = record {
    opened = ground (arith, h.opened, h.present);
    present = ground (arith, h.present);
    ordered = ground (arith, h.opened, h.present, h.ordered);
  }

  broadcast-Sound : (b : Bool) → Sound (udp_socket_set_broadcast stack o b).1
  unfolding udp_socket_set_broadcast call descriptor open_after target is_socket is_none in_turn
      held_socket
  broadcast-Sound b = record {
    opened = ground (arith, h.opened, h.present);
    present = ground (arith, h.present);
    ordered = ground (arith, h.opened, h.present, h.ordered);
  }

  timeout-Sound : (n : ℕ) → Sound (udp_socket_set_timeout stack o n).1
  unfolding udp_socket_set_timeout call descriptor open_after target is_socket is_none in_turn
      held_socket
  timeout-Sound n = record {
    opened = ground (arith, h.opened, h.present);
    present = ground (arith, h.present);
    ordered = ground (arith, h.opened, h.present, h.ordered);
  }

  send-Sound : Sound (udp_socket_send stack o).1
  unfolding udp_socket_send call descriptor open_after target is_socket is_none in_turn held_socket
  send-Sound = record {
    opened = ground (arith, h.opened, h.present);
    present = ground (arith, h.present);
    ordered = ground (arith, h.opened, h.present, h.ordered);
  }

  recv-Sound : Sound (udp_socket_recv stack o).2
  unfolding udp_socket_recv call descriptor open_after target is_socket is_none in_turn held_socket
  recv-Sound = record {
    opened = ground (arith, h.opened, h.present);
    present = ground (arith, h.present);
    ordered = ground (arith, h.opened, h.present, h.ordered);
  }

  free-Sound : Sound (udp_socket_free o).1
  unfolding udp_socket_free call descriptor open_after target is_socket is_none in_turn held_socket
  free-Sound = record {
    opened = ground (arith, h.opened, h.present);
    present = ground (arith, h.present);
    ordered = ground (arith, h.opened, h.present, h.ordered);
  }

Sound-if :
    (t : Bool) (p q : EspErr × UdpSocket)
    → Sound p.1
    → Sound q.1
    → Sound (if◌then◌else◌ {A = EspErr × UdpSocket} t p q).1
Sound-if true p q h h' = h
Sound-if false p q h h' = h'

refused_if :
    (t : Bool) (p q : EspErr × UdpSocket)
    → Sound p.1
    → (t ≡ false → Sound q.1)
    → Sound (if◌then◌else◌ {A = EspErr × UdpSocket} t p q).1
refused_if true p q h h' = h
refused_if false p q h h' = h' refl

closed_if : (t : Bool) (p q : UdpSocket) → Sound p → Sound q → Sound (if t then p else q)
closed_if true p q h h' = h
closed_if false p q h h' = h'

module _ (stack : Stack) (addr : List ℕ) (port : ℕ) where
  configure-Sound : (o : UdpSocket) → Sound o → Sound (configure stack o addr port).1
  unfolding configure
  configure-Sound o h =
      let o' = (udp_socket_set_destination stack o addr port).1 in
      let h' = destination-Sound stack o h addr port in
      closed_if (same_text addr broadcast_text) (udp_socket_set_broadcast stack o' true).1 o'
        (broadcast-Sound stack o' h' true) h'

  handler_err-Sound : (o : UdpSocket) → o.initialized ≡ true → Sound o → Sound (handler_err o).1
  unfolding handler_err call descriptor open_after target is_socket is_none in_turn held_socket
  handler_err-Sound o e h = record {
    opened = refl;
    present = refl;
    ordered = ground (arith, h.opened, h.present, h.ordered, e);
  }

  bind-initialized :
      (o : UdpSocket) (p : ℕ)
      → o.initialized ≡ true
      → (udp_socket_bind_local_port stack o p).1.initialized ≡ true
  unfolding udp_socket_bind_local_port call
  bind-initialized o p e = ground arith

  bind_and_configure-Sound :
      (o : UdpSocket) (source_port : ℕ)
      → o.initialized ≡ true
      → Sound o
      → Sound (bind_and_configure stack o source_port addr port).1
  unfolding bind_and_configure
  bind_and_configure-Sound o source_port e h =
      let bound = udp_socket_bind_local_port stack o source_port in
      let h' = bind-Sound stack o h source_port in
      Sound-if (source_port == 0) (configure stack o addr port)
        (if is_ok bound.0 then configure stack bound.1 addr port else handler_err bound.1)
        (configure-Sound o h)
        (Sound-if (is_ok bound.0) (configure stack bound.1 addr port) (handler_err bound.1)
          (configure-Sound bound.1 h')
          (handler_err-Sound bound.1 (bind-initialized o source_port e) h'))

  open_socket-Sound :
      (new_sock : Option ℕ) (o : UdpSocket) (source_port : ℕ)
      → o.initialized ≡ false
      → Sound o
      → Sound (open_socket stack new_sock o source_port addr port).1
  unfolding open_socket call open_after target is_socket is_none in_turn held_socket
  open_socket-Sound none o source_port e h = record {
    opened = ground (arith, h.opened, e);
    present = ground (arith, e);
    ordered = h.ordered;
  }
  open_socket-Sound (some n) o source_port e h =
      bind_and_configure-Sound (call (socket n) (record o { sock = some n; initialized = true }))
        source_port refl
        (record { opened = refl; present = refl; ordered = ground (arith, h.opened, h.ordered, e) })

  udp_socket_init-Sound :
      (o : UdpSocket) (source_port : ℕ)
      → Sound o
      → Sound (udp_socket_init stack o source_port addr port).1
  unfolding udp_socket_init
  udp_socket_init-Sound o source_port h =
      refused_if ((port == 0) || o.initialized) (fail, o)
        (open_socket stack stack.new_sock o source_port addr port) h
        (λ e. open_socket-Sound stack.new_sock o source_port (ground (arith, e)) h)

-- A call of one of the functions.
pub data Op : Type 0 where
  init : (source_port : ℕ) (addr : List ℕ) (port : ℕ) → Op
  free : Op
  bind_local_port : ℕ → Op
  set_destination : (addr : List ℕ) (port : ℕ) → Op
  broadcast : Bool → Op
  timeout : ℕ → Op
  send : Op
  recv : Op

unfoldable pub perform : Stack → Op → UdpSocket → UdpSocket
perform stack (init source_port addr port) o = (udp_socket_init stack o source_port addr port).1
perform stack free o = (udp_socket_free o).1
perform stack (bind_local_port port) o = (udp_socket_bind_local_port stack o port).1
perform stack (set_destination addr port) o = (udp_socket_set_destination stack o addr port).1
perform stack (broadcast b) o = (udp_socket_set_broadcast stack o b).1
perform stack (timeout n) o = (udp_socket_set_timeout stack o n).1
perform stack send o = (udp_socket_send stack o).1
perform stack recv o = (udp_socket_recv stack o).2

perform-Sound : (stack : Stack) (op : Op) (o : UdpSocket) → Sound o → Sound (perform stack op o)
unfolding perform
perform-Sound stack (init source_port addr port) o h =
    udp_socket_init-Sound stack addr port o source_port h
perform-Sound stack free o h = free-Sound stack o h
perform-Sound stack (bind_local_port port) o h = bind-Sound stack o h port
perform-Sound stack (set_destination addr port) o h = destination-Sound stack o h addr port
perform-Sound stack (broadcast b) o h = broadcast-Sound stack o h b
perform-Sound stack (timeout n) o h = timeout-Sound stack o h n
perform-Sound stack send o h = send-Sound stack o h
perform-Sound stack recv o h = recv-Sound stack o h

-- Calls one after another, each with what the network stack answers it.
unfoldable pub perform_all : List (Stack × Op) → UdpSocket → UdpSocket
unfolding perform
perform_all [] o = o
perform_all ((stack, op) ∷ ops) o = perform_all ops (perform stack op o)

-- Whatever functions are called in whatever order, with whatever answers of the network stack, from an object of which
-- this holds: a socket is opened only when none is open, every other call, the closing included, is made on the very
-- socket that is open, and where the flag is set the object has this socket, and where it is not none is open.
pub perform_all-Sound :
    (ops : List (Stack × Op)) (o : UdpSocket) → Sound o → Sound (perform_all ops o)
unfolding perform_all
perform_all-Sound [] o h = h
perform_all-Sound ((stack, op) ∷ ops) o h =
    perform_all-Sound ops (perform stack op o) (perform-Sound stack op o h)
