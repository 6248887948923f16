-- ===== src/Rest/Imu.antt =====
-- The handlers of components/rest_controller/rest_controller_handlers.c for the inertial sensor and its debug socket.
use rfmarkit_esp_node.Base.{
  ℕ, Bool, true, false, Option, none, some, List, [], ◌∷◌, ◌++◌, length, leb, ◌==◌, if◌then◌else◌,
}
use rfmarkit_esp_node.Base.OptionDo.{◌>>=◌}
use rfmarkit_esp_node.Base.Text.{same_text}
use rfmarkit_esp_node.Base.Int.{ℤ, pos, negsuc}
use rfmarkit_esp_node.Esp.{EspErr, ok, fail, is_ok}
use rfmarkit_esp_node.RingBuf.{peek}
use rfmarkit_esp_node.Node.{
  Node, ImuMux, imu_mux_idle, imu_mux_stream, imu_mux_debug, ImuStatus, imu_status_unknown,
  imu_status_fail, imu_status_ready, call, imu_toggle, imu_buffer_reset, imu_write_bytes,
  start_ws_task,
}
use rfmarkit_esp_node.Rest.Request.{
  by_method, Request, Json, str, text, number, null, datagram, Result, touch, respond, param,
}
use rfmarkit_esp_node.Rest.Words.{target_state_key, enable_text, disable_text}

-- `imu_toggle_handler`
unfoldable pub imu_toggle_handler : Request → Node → Result
unfolding touch respond param same_text call
imu_toggle_handler req n = do
  target_state ← param 129 req target_state_key
  if same_text target_state enable_text
      then respond 200 (("target_state", text target_state) ∷ ("status", str "ok") ∷ [])
          (call (imu_toggle true) (touch n))
      else if same_text target_state disable_text
      then respond 200 (("target_state", text target_state) ∷ ("status", str "ok") ∷ [])
          (call (imu_toggle false) (touch n))
      else respond 400
          (("target_state", text target_state) ∷ ("status", str "invalid target_state value") ∷ [])
          (touch n)

unfoldable pub status_number : ImuStatus → ℤ
status_number imu_status_unknown = negsuc 0
status_number imu_status_fail = pos 0
status_number imu_status_ready = pos 1

-- The reading that the mode gives: from the sensor, after its buffer was reset, or the latest of the ring buffer.
-- `read` is what the sensor's driver answers.
unfoldable pub latest : Option (List ℕ) → ImuMux → Node → Option (Option (List ℕ) × Node)
unfolding call peek
latest read imu_mux_stream n = do
  peeked ← peek (some n.imu_ring_buf) true (negsuc 0)
  some (elim peeked.1 [ none ↦ none | some item ↦ some item.0 ], n)
latest read imu_mux_idle n = some (read, call imu_buffer_reset n)
latest read imu_mux_debug n = some (read, call imu_buffer_reset n)

unfoldable pub imm : Option (List ℕ) → Json
imm none = null
imm (some bytes) = datagram bytes

-- `imu_status_handler`; `powered` is what the driver's `enabled` answers
unfoldable pub imu_status_handler : Bool → Option (List ℕ) → Request → Node → Result
unfolding touch respond latest imm status_number
imu_status_handler powered read req n = do
  found ← latest read n.imu_mux (touch n)
  respond 200
      (("power", str (if powered then "ON" else "OFF"))
        ∷ ("baud_rate", number n.imu_baud)
        ∷ ("enabled", str (if n.imu_enabled then "on" else "off"))
        ∷ ("imu_status", number (status_number n.imu_status))
        ∷ ("imm", imm found.0)
        ∷ [])
      found.1

unfoldable pub set_mux : ImuMux → Bool → Node → Node
set_mux mux no_sleep n = record n { imu_mux = mux; power = record n.power { no_sleep = no_sleep } }

-- `imu_debug_toggle_handler`; the key it looks for is the empty text
unfoldable pub imu_debug_toggle_handler : Request → Node → Result
unfolding touch respond param same_text set_mux
imu_debug_toggle_handler req n = do
  mode ← param 129 req []
  if same_text mode enable_text
      then respond 200 (("target_state", text mode) ∷ ("status", str "ok") ∷ [])
          (set_mux imu_mux_debug true (touch n))
      else if same_text mode disable_text
      then respond 200 (("target_state", text mode) ∷ ("status", str "ok") ∷ [])
          (set_mux imu_mux_idle false (touch n))
      else respond 400
          (("target_state", text mode) ∷ ("status", str "invalid target_state value") ∷ [])
          (touch n)

unfoldable pub is_debug : ImuMux → Bool
is_debug imu_mux_debug = true
is_debug _ = false

-- A frame that the HTTP server received, if it did: whether it is a text, and its payload.
pub record WsFrame : Type 0 where
  pub is_text : Bool
  pub payload : List ℕ

-- The part of `imu_debug_socket_handler` after the handshake: the message goes to the sensor with `\r\n` behind it,
-- in a buffer of 66 bytes. `received` is what `httpd_ws_recv_frame` answers with a limit of 64 bytes.
unfoldable pub proxy_frame : EspErr × WsFrame → Node → EspErr × Node
unfolding call
proxy_frame received n =
    if is_ok received.0
    then (if leb (length received.1.payload) 64
        then (if received.1.is_text
            then (
              received.0,
              if length received.1.payload == 0
                  then n
                  else call (imu_write_bytes (received.1.payload ++ (13 ∷ 10 ∷ []))) n,
            )
            else (fail, n))
        else (received.0, n))
    else (received.0, n)

-- `imu_debug_socket_handler`
unfoldable pub imu_debug_socket_handler : EspErr × WsFrame → Request → Node → EspErr × Node
unfolding is_debug call proxy_frame
imu_debug_socket_handler received req n =
    by_method req.method (if is_debug n.imu_mux then (ok, call start_ws_task n) else (fail, n))
      (proxy_frame received n) (proxy_frame received n)

-- One round of the loop of `ws_async_send_task`: the mode, what `read_bytes` gives and whether the frame was sent
-- decide whether the loop goes on. The bytes are the frame that is sent.
pub data WsRound : Type 0 where
  stop : WsRound
  again : WsRound
  sent : (frame : List ℕ) (delivered : Bool) → WsRound

unfoldable pub ws_round : ImuMux → List ℕ → Bool → WsRound
unfolding is_debug
ws_round mux bytes delivered =
    if is_debug mux then (if length bytes == 0 then again else sent bytes delivered) else stop
