-- ===== src/Rest/Led.antt =====
-- The handlers of components/rest_controller/rest_controller_handlers.c for the LED and the operation mode.
use rfmarkit_esp_node.Base.{
  ℕ, ◌-◌, ◌%◌, ◌+◌, ◌^◌, Bool, true, false, Option, none, some, List, [], ◌∷◌, length, ltb, ◌==◌,
  if◌then◌else◌,
}
use rfmarkit_esp_node.Base.OptionDo.{◌>>=◌}
use rfmarkit_esp_node.Base.Text.{same_text, strtol10, itoa}
use rfmarkit_esp_node.Base.Int.{ℤ, pos, negsuc}
use rfmarkit_esp_node.Esp.{EspErr, fail, is_ok}
use rfmarkit_esp_node.Blink.{
  LedStatus, led_off, led_on, led_duty, led_fast_flash, led_fast_breath, led_slow_breath,
  led_seq_enc, number, blink_led_off,
}
use rfmarkit_esp_node.LedStatus.{sys_set_led_status}
use rfmarkit_esp_node.Nvs.{sys_find_var, var_names, seq_name}
use rfmarkit_esp_node.Node.{
  Node, ImuStatus, imu_status_fail, imu_status_ready, set_sys_event, led_status_changed,
  sys_set_operation_mode, sys_get_operation_mode, sys_set_nvs_var,
}
use rfmarkit_esp_node.Rest.Request.{
  by_method, Request, Json, str, text, flag, Response, Result, touch, respond, param,
}
use rfmarkit_esp_node.Rest.Request as Request
use rfmarkit_esp_node.Rest.Imu.{status_number}
use rfmarkit_esp_node.Rest.Words.{
  target_state_key, mode_key, seq_key, action_key, auto_text, manual_text, off_text, start_text,
  stop_text,
}

-- `%` on an `int` with a divisor that is not negative: the sign is that of the value.
unfoldable pub rem_int : ℤ → ℕ → ℤ
rem_int (pos n) k = pos (n % k)
rem_int (negsuc n) k = if (n + 1) % k == 0 then pos 0 else negsuc ((n + 1) % k - 1)

-- The mode of a POST: the node after it, or none where it is refused.
unfoldable pub set_led_mode : List ℕ → Node → Option Node
unfolding same_text set_sys_event blink_led_off
set_led_mode tmp n =
    if length tmp == 0
    then some n
    else if same_text tmp auto_text
    then some (set_sys_event led_status_changed (record n { led_manual = false }))
    else if same_text tmp manual_text
    then some (set_sys_event led_status_changed (record n { led_manual = true }))
    else if same_text tmp off_text
    then some (record n { led_manual = true; blink = blink_led_off n.blink })
    else none

-- The sequence number is printed to a buffer of 4 bytes, stored and set.
unfoldable pub store_seq : ℤ → Node → Option Node
unfolding itoa sys_set_nvs_var sys_find_var
store_seq seq n =
    if ltb (length (itoa seq)) 4
    then (do
      index ← sys_find_var var_names 0 seq_name 3
      some (record (sys_set_nvs_var index (itoa seq) n).1 { seq = seq }))
    else none

-- The sequence number of a POST: refused where something follows the number.
unfoldable pub configure_seq : List ℕ → List ℕ → Node → Result
unfolding respond strtol10 store_seq rem_int
configure_seq mode tmp n =
    if length tmp == 0
    then respond 200 (("mode", text mode) ∷ ("seq", text tmp) ∷ ("status", str "ok") ∷ []) n
    else if length (strtol10 tmp).1 == 0
    then (do
      n' ← store_seq (rem_int (strtol10 tmp).0 0x100) n
      respond 200 (("mode", text mode) ∷ ("seq", text tmp) ∷ ("status", str "ok") ∷ []) n')
    else respond 400
        (("mode", text mode) ∷ ("seq", text tmp) ∷ ("status", str "invalid seq value") ∷ []) n

-- The POST of `blink_configure_handler`, after the mode was taken over.
unfoldable pub configure_after_mode : Request → List ℕ → Option Node → Node → Result
unfolding respond param configure_seq
configure_after_mode req mode none n =
    respond 400 (("mode", text mode) ∷ ("status", str "invalid mode value") ∷ []) n
configure_after_mode req mode (some n') n = do
  tmp ← param 129 req seq_key
  configure_seq mode tmp n'

-- `blink_configure_handler`; `g_mcu.seq % 100U` is computed without a sign
unfoldable pub blink_configure_handler : Request → Node → Result
unfolding touch respond param set_led_mode configure_after_mode
blink_configure_handler req n =
    by_method req.method
      (respond 200
        ((
          "seq",
          Request.number (pos (elim n.seq [ pos k ↦ k % 100 | negsuc k ↦ (2 ^ 32 - 1 - k) % 100 ])),
        )
          ∷ ("mode", str (if n.led_manual then "manual" else "auto"))
          ∷ ("status", str "ok")
          ∷ [])
        (touch n))
      (do
        mode ← param 129 req mode_key
        configure_after_mode req mode (set_led_mode mode (touch n)) (touch n))
      (respond 400 (("status", str "invalid method") ∷ []) (touch n))

-- A number as a `led_status_enum`; another number is no status.
unfoldable pub status_of : ℕ → Option LedStatus
status_of n =
    if n == 1
    then some led_off
    else if n == 2
    then some led_on
    else if n == 3
    then some led_duty
    else if n == 4
    then some led_fast_flash
    else if n == 5
    then some led_fast_breath
    else if n == 6
    then some led_slow_breath
    else if n == 7
    then some led_seq_enc
    else none

-- `sys_set_led_status` with a number: what is no status has the default of its `switch`.
unfoldable pub set_status : Option LedStatus → Node → EspErr × Node
unfolding sys_set_led_status
set_status none n = (fail, n)
set_status (some status) n =
    let done = sys_set_led_status status n.blink in (done.0, record n { blink = done.1 })

-- The answer of a POST to `blink_toggle_handler` for the number in the request.
unfoldable pub toggle_status : List ℕ → ℤ → Node → Result
unfolding respond set_status status_of
toggle_status target_state (negsuc k) n =
    respond 400
      (("target_state", text target_state) ∷ ("status", str "invalid target_state value") ∷ []) n
toggle_status target_state (pos k) n =
    let done = set_status (status_of k) n in
    if ltb 0 k
    then (if is_ok done.0
        then respond 200 (("target_state", text target_state) ∷ ("status", str "ok") ∷ []) done.1
        else respond 400
            (("target_state", text target_state)
              ∷ ("status", str "invalid target_state value")
              ∷ [])
            done.1)
    else respond 400
        (("target_state", text target_state) ∷ ("status", str "invalid target_state value") ∷ []) n

-- `blink_toggle_handler`
unfoldable pub blink_toggle_handler : Request → Node → Result
unfolding touch respond param toggle_status strtol10 number
blink_toggle_handler req n =
    by_method req.method
      (respond 200 (("state", Request.number (pos (number n.blink.led_status))) ∷ []) (touch n))
      (do
        target_state ← param 129 req target_state_key
        toggle_status target_state (strtol10 target_state).0 (touch n))
      (respond 400 (("status", str "invalid method") ∷ []) (touch n))

unfoldable pub is_fail : ImuStatus → Bool
is_fail imu_status_fail = true
is_fail _ = false

unfoldable pub is_ready : ImuStatus → Bool
is_ready imu_status_ready = true
is_ready _ = false

-- `operation_mode_handler`
unfoldable pub operation_mode_handler : Request → Node → Result
unfolding touch respond param same_text sys_set_operation_mode sys_get_operation_mode is_fail
    is_ready status_number
operation_mode_handler req n =
    by_method req.method
      (respond 200
        (("active", flag n.active)
          ∷ (
            "imu_status",
            str (
                if is_fail n.imu_status
                then "fail"
                else if sys_get_operation_mode n
                then "running"
                else if is_ready n.imu_status
                then "ready"
                else "unknown"),
          )
          ∷ [])
        (touch n))
      (do
        action ← param 129 req action_key
        if same_text action start_text
            then respond 200
                (("action", text action)
                  ∷ ("imu_status", Request.number (status_number n.imu_status))
                  ∷ ("status", str "ok")
                  ∷ [])
                (sys_set_operation_mode true (touch n))
            else if same_text action stop_text
            then respond 200
                (("action", text action)
                  ∷ ("imu_status", Request.number (status_number n.imu_status))
                  ∷ ("status", str "ok")
                  ∷ [])
                (sys_set_operation_mode false (touch n))
            else respond 400
                (("action", text action)
                  ∷ ("imu_status", Request.number (status_number n.imu_status))
                  ∷ ("status", str "invalid action value")
                  ∷ [])
                (touch n))
      (respond 400 (("status", str "invalid method") ∷ []) (touch n))
