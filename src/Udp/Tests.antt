-- ===== src/Udp/Tests.antt =====
-- The theorem on lib/libudp/udp.c at a concrete run.
use rfmarkit_esp_node.Base.{true, false, none, some, List, [], ◌∷◌, refl}
use rfmarkit_esp_node.Udp.{UdpSocket, Stack}
use rfmarkit_esp_node.Udp.Lifetime.{
  Sound, Op, init, send, free, perform_all, perform_all-Sound, open_after, is_none, in_turn,
  held_socket,
}

abbrev unused : UdpSocket
unused = record {
  initialized = false;
  sock = none;
  source_port = 0;
  dest_addr = 0;
  dest_port = 0;
  calls = [];
}

-- a stack that answers, and one that fails to bind
abbrev working : Stack
working = record {
  new_sock = some 3;
  bind_ok = true;
  option_ok = true;
  send_ok = true;
  recv_len = none;
  inet_addr = λ text. 7;
}

abbrev no_bind : Stack
no_bind = record working { bind_ok = false }

abbrev script : List (Stack × Op)
script =
    (no_bind, init 18888 (49 ∷ []) 18889)
    ∷ (working, init 0 (49 ∷ []) 18889)
    ∷ (working, send)
    ∷ (working, free)
    ∷ (working, send)
    ∷ []

unused-Sound : Sound unused
unfolding open_after in_turn held_socket is_none
unused-Sound = record { opened = refl; present = refl; ordered = refl }

perform_all-Sound_example : Sound (perform_all script unused)
perform_all-Sound_example = perform_all-Sound script unused unused-Sound
