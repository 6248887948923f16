-- ===== src/Battery.antt =====
-- lib/battery/battery.c: the level of the battery. The analog converter of ESP-IDF is outside: what it returns is an
-- argument, and the calls under `ESP_ERROR_CHECK` succeed, since the chip restarts where one does not.
pub mod Level
mod Tests
use rfmarkit_esp_node.Base.{
  ℕ, ◌+◌, ◌*◌, ◌/◌, ◌%◌, ◌^◌, Bool, true, false, not, List, [], ◌∷◌, if◌then◌else◌,
}

-- The calls: a read of the converter with the level of the pin that it sees, and the conversion of a value.
pub data BatteryCall : Type 0 where
  configure_en_pin new_unit configure_channel create_scheme : BatteryCall
  delay_ms : ℕ → BatteryCall
  oneshot_read : (en_level : Bool) → (adc_raw : ℕ) → BatteryCall
  raw_to_voltage : ℕ → BatteryCall

-- The static variables, and the level of the pin that connects the divider.
pub record Battery : Type 0 where
  pub cali_enable : Bool
  pub en_level : Bool
  pub calls : List BatteryCall

-- The build: whether there is the pin, its active level, and whether the chip has a scheme for the calibration.
pub record BatteryBoard : Type 0 where
  pub has_en_pin : Bool
  pub en_value : Bool
  pub has_scheme : Bool

unfoldable pub call : BatteryCall → Battery → Battery
call c b = record b { calls = c ∷ b.calls }

-- `adc_calibration_init`, with whether the scheme is created
unfoldable pub adc_calibration_init : BatteryBoard → Bool → Battery → Bool × Battery
unfolding call
adc_calibration_init board created b =
    if board.has_scheme
    then (created, record (call create_scheme b) { cali_enable = created })
    else (false, record b { cali_enable = false })

unfoldable pub set_en_pin : BatteryBoard → Bool → Battery → Battery
set_en_pin board level b = if board.has_en_pin then record b { en_level = level } else b

-- The voltage at the converter in mV.
unfoldable pub read_voltage : (ℕ → ℕ) → ℕ → Battery → ℕ × Battery
unfolding call
read_voltage cali adc_raw b =
    let c = call (oneshot_read b.en_level adc_raw) b in
    if b.cali_enable
    then (cali adc_raw % 2 ^ 32, call (raw_to_voltage adc_raw) c)
    else (adc_raw * 1100 / 4096, c)

-- `battery_read_level`, with the value of the converter, and the conversion of ESP-IDF; the result as a word of 32 bits
unfoldable pub battery_read_level : BatteryBoard → (ℕ → ℕ) → ℕ → Battery → ℕ × Battery
unfolding set_en_pin read_voltage call
battery_read_level board cali adc_raw b =
    let r = read_voltage cali adc_raw (call (delay_ms 50) (set_en_pin board board.en_value b)) in
    (
      if board.has_en_pin then r.0 / 2 * 5 % 2 ^ 32 else r.0,
      set_en_pin board (not board.en_value) r.1,
    )

-- `battery_msp_init`
unfoldable pub battery_msp_init : BatteryBoard → Bool → (ℕ → ℕ) → ℕ → Battery → Battery
unfolding adc_calibration_init battery_read_level call
battery_msp_init board created cali adc_raw b =
    let c = if board.has_en_pin then call configure_en_pin b else b in
    let d = (adc_calibration_init board created (call configure_channel (call new_unit c))).1 in
    (battery_read_level board cali adc_raw d).1
