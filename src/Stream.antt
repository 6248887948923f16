-- ===== src/Stream.antt =====
-- components/apps/monitor.c and components/apps/network.c: the task that pushes the sensor's readings into the ring
-- buffer, and the task that sends them. Every round of a loop is a function, since the two tasks run side by side.
mod Rounds
pub mod Session
pub mod Order
pub mod Behind
mod Tests
use rfmarkit_esp_node.Base.{
  ℕ, ◌+◌, ◌%◌, ◌^◌, Bool, true, false, not, ◌&&◌, ◌||◌, Option, none, some, List, [], ◌∷◌, ◌++◌,
  leb, if◌then◌else◌,
}
use rfmarkit_esp_node.Base.OptionDo.{◌>>=◌}
use rfmarkit_esp_node.Base.Int.{ℤ, pos}
use rfmarkit_esp_node.Esp.{EspErr, ok, fail, no_mem, is_ok}
use rfmarkit_esp_node.RingBuf.{RingBuf, push, peek, reset}
use rfmarkit_esp_node.Udp.{UdpSocket, Stack, udp_socket_init, udp_socket_send}
use rfmarkit_esp_node.Node.{
  Node, ImuMux, imu_mux_stream, imu_mux_idle, imu_mux_debug, call, imu_buffer_reset,
  sys_set_operation_mode,
}

unfoldable pub is_stream : ImuMux → Bool
is_stream imu_mux_stream = true
is_stream imu_mux_idle = false
is_stream imu_mux_debug = false

-- `app_monitor`: whether it is in its inner loop, and the next sequence number, a `uint32_t`.
pub record Monitor : Type 0 where
  pub streaming : Bool
  pub seq : ℕ

unfoldable pub put : Option RingBuf → Node → Node
put none n = n
put (some r) n = record n { imu_ring_buf = r }

-- `tag seq reading` are the bytes of a datagram whose `seq` is set: where it lies in them is the compiler's.
module _ (tag : ℕ → List ℕ → List ℕ) where
  -- A round of the outer loop.
  unfoldable pub monitor_wait : Monitor → Node → Monitor × Node
  unfolding is_stream call reset
  monitor_wait m n =
      if n.imu_enabled && is_stream n.imu_mux
      then (
        record { streaming = true; seq = 0 },
        record (call imu_buffer_reset n) { imu_ring_buf = (reset n.imu_ring_buf).1 },
      )
      else (m, n)

  -- The rest of a round of the inner loop; `read` is the reading, where the driver has one.
  unfoldable pub monitor_read : Option (List ℕ) → Monitor → Node → Option (Monitor × Node)
  unfolding push put
  monitor_read none m n = some (m, n)
  monitor_read (some reading) m n = do
    pushed ← push (some n.imu_ring_buf) (some (tag m.seq reading))
    some (record m { seq = (m.seq + 1) % 2 ^ 32 }, put pushed.1 n)

  -- A round of the inner loop.
  unfoldable pub monitor_stream : Option (List ℕ) → Monitor → Node → Option (Monitor × Node)
  unfolding is_stream monitor_read
  monitor_stream read m n =
      let read_on = monitor_read read m n in
      if n.imu_enabled && is_stream n.imu_mux
      then read_on
      else some (record m { streaming = false }, n)

  -- A round of `app_monitor`
  unfoldable pub app_monitor : Option (List ℕ) → Monitor → Node → Option (Monitor × Node)
  unfolding monitor_wait monitor_stream
  app_monitor read m n =
      let stream = monitor_stream read m n in
      if m.streaming then stream else some (monitor_wait m n)

-- `app_data_client`: whether it is in its inner loop, `curr_index`, its socket, and the datagrams that it sent, the
-- first first.
pub record Client : Type 0 where
  pub sending : Bool
  pub curr_index : ℕ  -- int64_t
  pub socket : UdpSocket
  pub sent : List (List ℕ)

-- `handle_error`
unfoldable pub handle_error : Client → Node → Client × Node
unfolding sys_set_operation_mode
handle_error c n =
    (record c { sending = false }, if n.active then sys_set_operation_mode false n else n)

-- The start of the inner loop.
unfoldable pub start_sending : Client → Node → Client × Node
start_sending c n = (record c { sending = true; curr_index = 1 }, record n { missed_frames = 0 })

-- A round of the outer loop; `port` is `CONFIG_DATA_HOST_PORT`.
unfoldable pub client_wait : Stack → ℕ → Client → Node → Client × Node
unfolding udp_socket_init start_sending handle_error
client_wait stack port c n =
    let opened = udp_socket_init stack c.socket 0 n.data_host_ip_addr port in
    if not n.active || (not n.ntp_synced || not n.discovery_completed)
    then (c, n)
    else if c.socket.initialized
    then start_sending c n
    else if is_ok opened.0
    then start_sending (record c { socket = opened.1 }) n
    else handle_error (record c { socket = opened.1 }) n

unfoldable pub is_no_mem : EspErr → Bool
is_no_mem no_mem = true
is_no_mem _ = false

-- The send of a datagram that was read.
unfoldable pub client_send : Stack → List ℕ → Client → Node → Client × Node
unfolding udp_socket_send handle_error is_no_mem
client_send stack item c n =
    let done = udp_socket_send stack c.socket in
    let c' = record c { curr_index = c.curr_index + 1; socket = done.1 } in
    if is_ok done.0
    then (record c' { sent = c.sent ++ (item ∷ []) }, n)
    else handle_error c'
        (if is_no_mem done.0 then record n { missed_frames = n.missed_frames + 1 } else n)

-- What a peek at `curr_index` leads to.
unfoldable pub client_peeked : Stack → EspErr × Option (List ℕ × ℤ) → Client → Node → Client × Node
unfolding client_send
client_peeked stack (err, none) c n = (c, n)
client_peeked stack (err, some (item, index)) c n = client_send stack item c n

-- A round of the inner loop.
unfoldable pub client_stream : Stack → Client → Node → Option (Client × Node)
unfolding peek client_peeked handle_error
client_stream stack c n =
    let read = (do
      peeked ← peek (some n.imu_ring_buf) true (pos c.curr_index)
      some (client_peeked stack peeked c n)) in
    if n.active
    then (if leb n.imu_ring_buf.head c.curr_index then some (c, n) else read)
    else some (handle_error c n)

-- A round of `app_data_client`
unfoldable pub app_data_client : Stack → ℕ → Client → Node → Option (Client × Node)
unfolding client_wait client_stream
app_data_client stack port c n =
    let stream = client_stream stack c n in
    if c.sending then stream else some (client_wait stack port c n)
