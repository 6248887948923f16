-- ===== src/Hi229/Driver/Start.antt =====
-- The start of the sensor: `hi229_interface_init`, `hi229_init` and `s_hi229_msp_init` of lib/hi229/hi229.c. The calls
-- under `ESP_ERROR_CHECK` succeed, since the chip restarts where one does not.
use rfmarkit_esp_node.Base.{
  ℕ, ◌≡◌, refl, arith, Bool, true, false, some, List, replicate, if◌then◌else◌,
}
use rfmarkit_esp_node.Base.Outcome.{done}
use rfmarkit_esp_node.Esp.{ok, fail}
use rfmarkit_esp_node.Node.{imu_status_fail, imu_status_ready}
use rfmarkit_esp_node.Hi229.Raw.{FloatOps, Raw, ImuData}
use rfmarkit_esp_node.Hi229.Parse.Items.{apply_all}
use rfmarkit_esp_node.Hi229.Input.Packets.{Packet, AllPackets, stream, items_of}
use rfmarkit_esp_node.Hi229.Driver.{
  Hi229, call, hi229_toggle, hi229_read, poll, uart_driver_install, uart_param_config, uart_set_pin,
  config_ctrl_pin, gpio_set_level, config_sync_out_pin, clear_sync_out_pin, config_sync_in_pin,
  create_mutex, create_event_group, create_poll_task,
}
use rfmarkit_esp_node.Hi229.Driver.Latest.{has_reading, hi229_read-poll}

module _ {F : Type 0} (fl : FloatOps F) where
  -- The data and the state of zero bytes.
  unfoldable pub zero_data : ImuData F
  zero_data =
      let o = fl.of_bits 0 in
      record {
        id = 0;
        acc = (o, o, o);
        gyr = (o, o, o);
        mag = (o, o, o);
        eul = (o, o, o);
        quat = (o, o, o, o);
        pressure = o;
        timestamp = 0;
      }

  unfoldable pub zero_raw : Raw F
  unfolding zero_data
  zero_raw = record {
    nbyte = 0;
    len = 0;
    buf = replicate 512 0;
    gwid = 0;
    nimu = 0;
    imu = zero_data;
    item_code = replicate 8 0;
    nitem_code = 0;
  }

  -- `s_hi229_msp_init`
  unfoldable pub s_hi229_msp_init : Hi229 F → Hi229 F
  unfolding call
  s_hi229_msp_init p =
      let uart = call uart_set_pin (call (uart_param_config p.baud) (call uart_driver_install p)) in
      let ctrl = call (gpio_set_level false) (call config_ctrl_pin uart) in
      let sync_out = call clear_sync_out_pin (call config_sync_out_pin ctrl) in
      record (call config_sync_in_pin sync_out) { enabled = true }

  -- `hi229_init`, with whether the mutex could be created, and the speed of its configuration
  unfoldable pub hi229_init : Bool → ℕ → Hi229 F → Hi229 F
  unfolding zero_raw call s_hi229_msp_init hi229_toggle
  hi229_init has_mutex baud p =
      let p₁ =
        call create_mutex
          (record p { baud = baud; addr = 0xe5; enabled = false; raw = zero_raw }) in
      let p₂ = record p₁ { status = if has_mutex then imu_status_ready else imu_status_fail } in
      let p₃ = record (call create_event_group p₂) { data_ready = false } in
      let p₄ = (hi229_toggle true (s_hi229_msp_init p₃)).1 in
      record (call create_poll_task p₄) { initialized = true }

  -- `hi229_interface_init`, with the speed of `g_mcu.imu_baud`
  unfoldable pub hi229_interface_init : Bool → ℕ → Hi229 F → Hi229 F
  unfolding hi229_init
  hi229_interface_init has_mutex imu_baud p =
      if p.initialized then p else hi229_init has_mutex imu_baud p

  -- From a driver that was not set up before, whatever its memory holds: after the set-up, and a stream of frames of
  -- readings, frames in which one byte of the payload has changed, and stray bytes other than the first sync byte, with
  -- at least one reading among them, a read succeeds with the data of the items of all readings in order over data of
  -- zero, and the next read fails.
  pub interface_init-poll-read :
      (now : ℕ) (has_mutex : Bool) (imu_baud : ℕ) (qs : List Packet) (p : Hi229 F)
      → p.initialized ≡ false
      → AllPackets qs
      → has_reading qs ≡ true
      → (p' : Hi229 F) × (poll fl now (hi229_interface_init has_mutex imu_baud p) (stream qs)
          ≡ done p')
        × ((hi229_read p').0 ≡ ok)
        × ((hi229_read p').1 ≡ some (apply_all fl (items_of qs) zero_data))
        × ((hi229_read (hi229_read p').2).0 ≡ fail)
  unfolding hi229_interface_init
  interface_init-poll-read now has_mutex imu_baud qs p fresh h some_reading = rw fresh (
      hi229_read-poll fl now qs (hi229_init has_mutex imu_baud p) h some_reading
        (record { idle = refl; size = refl; no_sync = omega arith }) (λ e. ground (arith, e)))
