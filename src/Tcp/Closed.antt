-- ===== src/Tcp/Closed.antt =====
-- The sockets that the rounds of `tcp_server_loop` open and close, and the clients that they serve.
use rfmarkit_esp_node.Base.{
  ℕ, ◌+◌, ◌≡◌, refl, sym, ap, ◌∙◌, arith, Bool, true, false, Option, none, some, List, [], ◌∷◌,
  ◌++◌, if◌then◌else◌,
}
use rfmarkit_esp_node.Tcp.{
  TcpServer, Round, bind_port, listen_for, interact, shut_down, close_socket, call,
  handle_socket_err, server_create_socket, server_bind, server_listen, server_set_timeout,
  client_sock_set_keepalive, server_accept, accept_all, tcp_server_round, tcp_server_loop,
}
use rfmarkit_esp_node.Tcp.Counts.{
  is_socket, occurs, opened, closed, served, reverse_onto, clients_of, failures, new_server,
}

reverse_onto-append :
    (xs ys zs : List ℕ) → reverse_onto (xs ++ ys) zs ≡ reverse_onto ys (reverse_onto xs zs)
unfolding reverse_onto
reverse_onto-append [] ys zs = refl
reverse_onto-append (x ∷ xs) ys zs = reverse_onto-append xs ys (x ∷ zs)

module _ (h : ℕ) where
  -- What calls add to those that were made.
  record Adds (t t' : TcpServer) (opens closes : ℕ) (clients : List ℕ) : Type 0 where
    opened_by : opened h t'.calls ≡ opens + opened h t.calls
    closed_by : closed h t'.calls ≡ closes + closed h t.calls
    served_by : served t'.calls ≡ reverse_onto clients (served t.calls)
    same_sock : t'.server_sock ≡ t.server_sock

  handle_socket_err-Adds :
      (s : Option ℕ) (t : TcpServer) → Adds t (handle_socket_err s t) 0 (is_socket h s) []
  unfolding handle_socket_err call opened closed served reverse_onto is_socket
  handle_socket_err-Adds none t = record {
    opened_by = omega arith;
    closed_by = omega arith;
    served_by = refl;
    same_sock = refl;
  }
  handle_socket_err-Adds (some s) t = record {
    opened_by = omega arith;
    closed_by = refl;
    served_by = refl;
    same_sock = refl;
  }

  server_bind-Adds :
      (b : Bool) (t : TcpServer)
      → Adds t (server_bind b t).1 0 (if b then 0 else is_socket h t.server_sock) []
  unfolding server_bind call opened closed served reverse_onto
  server_bind-Adds true t = record {
    opened_by = omega arith;
    closed_by = omega arith;
    served_by = refl;
    same_sock = refl;
  }
  server_bind-Adds false t =
      let k = handle_socket_err-Adds t.server_sock (call (bind_port t.server_sock t.port) t) in
      record {
        opened_by = k.opened_by;
        closed_by = k.closed_by;
        served_by = k.served_by;
        same_sock = k.same_sock;
      }

  server_listen-Adds :
      (b : Bool) (t : TcpServer)
      → Adds t (server_listen b t).1 0 (if b then 0 else is_socket h t.server_sock) []
  unfolding server_listen call opened closed served reverse_onto
  server_listen-Adds true t = record {
    opened_by = omega arith;
    closed_by = omega arith;
    served_by = refl;
    same_sock = refl;
  }
  server_listen-Adds false t =
      let k =
        handle_socket_err-Adds t.server_sock (call (listen_for t.server_sock t.max_listen) t) in
      record {
        opened_by = k.opened_by;
        closed_by = k.closed_by;
        served_by = k.served_by;
        same_sock = k.same_sock;
      }

  accept_all-Adds :
      (cs : List ℕ) (t : TcpServer) → Adds t (accept_all cs t) (occurs h cs) (occurs h cs) cs
  unfolding accept_all server_accept client_sock_set_keepalive call opened closed served occurs
      reverse_onto is_socket
  accept_all-Adds [] t = record {
    opened_by = refl;
    closed_by = omega arith;
    served_by = refl;
    same_sock = refl;
  }
  accept_all-Adds (c ∷ cs) t =
      let k = accept_all-Adds cs (
        call (close_socket c)
          (call (shut_down c) (call (interact c) (server_accept (some c) t).1))) in
      record {
        opened_by = omega (arith, k.opened_by);
        closed_by = omega (arith, k.closed_by);
        served_by = k.served_by;
        same_sock = k.same_sock;
      }

  create-Adds :
      (s : Option ℕ) (t : TcpServer)
      → (opened h (server_create_socket s t).1.calls ≡ is_socket h s + opened h t.calls)
        × (closed h (server_create_socket s t).1.calls ≡ closed h t.calls)
        × (served (server_create_socket s t).1.calls ≡ served t.calls)
        × ((server_create_socket s t).1.server_sock ≡ s)
  unfolding server_create_socket handle_socket_err call opened closed served
  create-Adds none t = (refl, refl, refl, refl)
  create-Adds (some s) t = (refl, refl, refl, refl)

  server_set_timeout-Adds : (n : ℕ) (t : TcpServer) → Adds t (server_set_timeout n t).1 0 0 []
  unfolding server_set_timeout call opened closed served reverse_onto
  server_set_timeout-Adds n t = record {
    opened_by = omega arith;
    closed_by = omega arith;
    served_by = refl;
    same_sock = refl;
  }

  -- What a round adds: its socket is closed once more for each failure.
  record RoundAdds (r : Round) (t t' : TcpServer) : Type 0 where
    opened_by : opened h t'.calls ≡ is_socket h r.socket + occurs h r.clients + opened h t.calls
    closed_by :
        closed h t'.calls
        ≡ (if r.binds then 0 else is_socket h r.socket)
          + (if r.listens then 0 else is_socket h r.socket)
          + (is_socket h r.socket + occurs h r.clients)
          + closed h t.calls
    served_by : served t'.calls ≡ reverse_onto r.clients (served t.calls)

  tcp_server_round-adds : (r : Round) (t : TcpServer) → RoundAdds r t (tcp_server_round r t)
  unfolding tcp_server_round reverse_onto
  tcp_server_round-adds r t =
      let c = (server_create_socket r.socket t).1 in
      let (c_opened, c_closed, c_served, c_sock) = create-Adds r.socket t in
      let b = (server_bind r.binds c).1 in
      let b' = server_bind-Adds r.binds c in
      let l = (server_listen r.listens b).1 in
      let l' = server_listen-Adds r.listens b in
      let s = (server_set_timeout 0 l).1 in
      let s' = server_set_timeout-Adds 0 l in
      let a = accept_all r.clients s in
      let a' = accept_all-Adds r.clients s in
      let e' = handle_socket_err-Adds a.server_sock a in
      let a_sock : is_socket h a.server_sock ≡ is_socket h r.socket =
        ap (is_socket h) (a'.same_sock ∙ s'.same_sock ∙ l'.same_sock ∙ b'.same_sock ∙ c_sock) in
      let unbound : (if r.binds then 0 else is_socket h c.server_sock)
          ≡ (if r.binds then 0 else is_socket h r.socket) =
        ap (λ x. if r.binds then 0 else is_socket h x) c_sock in
      let unheard : (if r.listens then 0 else is_socket h b.server_sock)
          ≡ (if r.listens then 0 else is_socket h r.socket) =
        ap (λ x. if r.listens then 0 else is_socket h x) (b'.same_sock ∙ c_sock) in
      record {
        opened_by =
            omega (
              arith, c_opened, b'.opened_by, l'.opened_by, s'.opened_by, a'.opened_by, e'.opened_by,
            );
        closed_by = omega (
          arith, c_closed, b'.closed_by, l'.closed_by, s'.closed_by, a'.closed_by, e'.closed_by,
          unbound, unheard, a_sock,
        );
        served_by =
            e'.served_by
            ∙ a'.served_by
            ∙ ap (reverse_onto r.clients) (s'.served_by ∙ l'.served_by ∙ b'.served_by ∙ c_served);
      }

  loop-adds :
      (rs : List Round) (t : TcpServer)
      → (closed h (tcp_server_loop rs t).calls + opened h t.calls
          ≡ opened h (tcp_server_loop rs t).calls + failures h rs + closed h t.calls)
        × (served (tcp_server_loop rs t).calls ≡ reverse_onto (clients_of rs) (served t.calls))
  unfolding tcp_server_loop failures clients_of reverse_onto
  loop-adds [] t = (omega arith, refl)
  loop-adds (r ∷ rs) t =
      let k = tcp_server_round-adds r t in
      let (balance, order) = loop-adds rs (tcp_server_round r t) in
      (
        omega (arith, k.opened_by, k.closed_by, balance),
        order
            ∙ ap (reverse_onto (clients_of rs)) k.served_by
            ∙ sym (reverse_onto-append r.clients (clients_of rs) (served t.calls)),
      )

-- From the first round on, whatever the stack answers: each handle was closed as often as a socket with it was opened,
-- and once more for each time that binding it, or listening on it, failed; and the clients that were accepted were
-- served each once, in their order.
pub tcp_server_loop-closed :
    (rs : List Round) (port max_listen h : ℕ)
    → (closed h (tcp_server_loop rs (new_server port max_listen)).calls
        ≡ opened h (tcp_server_loop rs (new_server port max_listen)).calls + failures h rs)
      × (served (tcp_server_loop rs (new_server port max_listen)).calls
          ≡ reverse_onto (clients_of rs) [])
unfolding opened closed served
tcp_server_loop-closed rs port max_listen h =
    let (balance, order) = loop-adds h rs (new_server port max_listen) in
    (omega (arith, balance), order)
