-- ===== src/Hi229/Driver.antt =====
-- lib/hi229/hi229.c: the sensor's driver above the serial protocol. The UART and the pins are outside the repository:
-- the bytes that were read are an argument, and that they were called is recorded, the latest first.
pub mod Ready
pub mod Quiet
pub mod Latest
pub mod Start
mod Delay
mod Tests
use rfmarkit_esp_node.Base.{
  ℕ, zero, suc, ◌+◌, ◌*◌, ◌/◌, ◌%◌, ◌^◌, Bool, true, false, ◌&&◌, Option, none, some, List, [], ◌∷◌,
  length, get_or, ltb, ◌==◌, if◌then◌else◌,
}
use rfmarkit_esp_node.Base.OptionDo
use rfmarkit_esp_node.Base.Outcome.{Outcome, done, undefined, ◌>>=◌}
use rfmarkit_esp_node.Esp.{EspErr, ok, fail}
use rfmarkit_esp_node.Node.{ImuStatus, imu_status_fail, imu_status_ready}
use rfmarkit_esp_node.Hi229.Raw.{FloatOps, Raw, ImuData}
use rfmarkit_esp_node.Hi229.Input.{Status, message, no_message, error, ch_serial_input}

pub data Call : Type 0 where
  gpio_set_level : Bool → Call
  uart_flush : Call
  uart_write_bytes_with_break : List ℕ → Call
  uart_driver_install uart_set_pin : Call
  uart_param_config : (baud : ℕ) → Call
  config_ctrl_pin config_sync_out_pin clear_sync_out_pin config_sync_in_pin : Call
  create_mutex create_event_group create_poll_task : Call

-- `hi229_t`; `data_ready` is the bit `EV_DATA_READY` of its event group.
pub record Hi229 (F : Type 0) : Type 0 where
  pub initialized : Bool
  pub addr : ℕ
  pub baud : ℕ
  pub status : ImuStatus
  pub enabled : Bool
  pub raw : Raw F
  pub raw_snapshot : ImuData F
  pub raw_timestamp : ℕ
  pub data_ready : Bool
  pub calls : List Call

unfoldable pub is_message : Status → Bool
is_message message = true
is_message no_message = false
is_message error = false

-- `hi229_get_buffer_delay`: the time that the bytes in the buffer of the UART stand for; the product has 32 bits
unfoldable pub hi229_get_buffer_delay : (baud uart_buffer_len : ℕ) → ℕ
hi229_get_buffer_delay baud uart_buffer_len = 1000000 * uart_buffer_len % 2 ^ 32 / baud

-- `hi229_is_powered_on`; `level` is what the pin reads
unfoldable pub hi229_is_powered_on : Bool → Bool
hi229_is_powered_on level = if level then false else true

-- The loop of `hi229_self_test` over the bytes that were read, from an index on: the cursor after it. The byte behind the
-- last is read too, which is undefined at the end of the 512 bytes of the buffer.
unfoldable pub find_sync : List ℕ → (len idx left cursor : ℕ) → Option ℕ
find_sync bytes len idx zero cursor = some cursor
find_sync bytes len idx (suc left) cursor =
    let skip = find_sync bytes len (idx + 1) left cursor in
    let log = find_sync bytes len (idx + 1) left (cursor + 1) in
    if get_or bytes idx 0 == 0x5a
    then (if ltb (idx + 1) (length bytes)
        then (if (get_or bytes (idx + 1) 0 == 0xa5) && ltb cursor 4 then log else skip)
        else none)
    else skip

module _ {F : Type 0} where
  unfoldable pub call : Call → Hi229 F → Hi229 F
  call c p = record p { calls = c ∷ p.calls }

  -- A message that is complete.
  unfoldable pub take_message : ℕ → Hi229 F → Hi229 F
  take_message now p = record p { raw_snapshot = p.raw.imu; raw_timestamp = now; data_ready = true }

  -- `hi229_read` with `out` not NULL: the reading, where one is ready. Its time stamps are the clock's.
  unfoldable pub hi229_read : Hi229 F → EspErr × Option (ImuData F) × Hi229 F
  hi229_read p =
      if p.data_ready
      then (ok, some p.raw_snapshot, record p { data_ready = false })
      else (fail, none, p)

  -- `hi229_toggle`; the level of `CONFIG_HI229_ENABLE_LVL` is 0
  unfoldable pub hi229_toggle : Bool → Hi229 F → EspErr × Hi229 F
  unfolding call
  hi229_toggle enable p = (
    ok,
    record (call uart_flush (call (gpio_set_level (if enable then false else true)) p)) {
      enabled = enable;
    },
  )

  -- `hi229_chip_hard_reset`
  unfoldable pub hi229_chip_hard_reset : Hi229 F → Hi229 F
  unfolding hi229_toggle
  hi229_chip_hard_reset p = (hi229_toggle true (hi229_toggle false p).1).1

  -- `hi229_chip_soft_reset`: `AT+RST`
  unfoldable pub hi229_chip_soft_reset : Hi229 F → Hi229 F
  unfolding call
  hi229_chip_soft_reset p =
      call (uart_write_bytes_with_break (b'A' ∷ b'T' ∷ b'+' ∷ b'R' ∷ b'S' ∷ b'T' ∷ 13 ∷ 10 ∷ [])) p

  -- `hi229_write_bytes`
  unfoldable pub hi229_write_bytes : List ℕ → Hi229 F → EspErr × Hi229 F
  unfolding call
  hi229_write_bytes bytes p = (ok, call (uart_write_bytes_with_break bytes) p)

  -- `hi229_buffer_reset`; `cleared` is the `raw_t` of zero bytes
  unfoldable pub hi229_buffer_reset : Raw F → Hi229 F → Hi229 F
  unfolding call
  hi229_buffer_reset cleared p = call uart_flush (record p { raw = cleared })

  -- The end of `hi229_self_test`
  unfoldable pub tested : Option ℕ → Hi229 F → Option (EspErr × Hi229 F)
  tested none p = none
  tested (some cursor) p = some (
      if cursor == 4
      then (ok, record p { status = imu_status_ready })
      else (fail, record p { status = imu_status_fail }))

  -- `hi229_self_test`: `bytes` is its buffer after `uart_read_bytes` put `len` bytes there
  unfoldable pub hi229_self_test : List ℕ → ℕ → Hi229 F → Option (EspErr × Hi229 F)
  unfolding find_sync tested call
  hi229_self_test bytes len p = tested (find_sync bytes len 0 len 0) (call uart_flush p)

module _ {F : Type 0} (fl : FloatOps F) where
  -- A byte in `hi229_poll_task`
  unfoldable pub poll_byte : ℕ → Hi229 F → ℕ → Outcome (Hi229 F)
  unfolding ch_serial_input is_message take_message
  poll_byte now p byte = do
    (status, raw) ← ch_serial_input fl p.raw byte true
    done (
        if is_message status
        then take_message now (record p { raw = raw })
        else record p { raw = raw })

  -- The loop of `hi229_poll_task` over the bytes of a read.
  unfoldable pub poll : ℕ → Hi229 F → List ℕ → Outcome (Hi229 F)
  unfolding poll_byte
  poll now p [] = done p
  poll now p (x ∷ xs) = do p' ← poll_byte now p x; poll now p' xs
