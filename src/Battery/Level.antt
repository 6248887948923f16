-- ===== src/Battery/Level.antt =====
-- The level against the voltage of the battery.
use rfmarkit_esp_node.Base.{
  ℕ, ◌+◌, ◌*◌, ◌/◌, ◌^◌, ◌<◌, ◌≤◌, ◌≡◌, refl, ap, arith, Bool, true, not, ◌&&◌, List, [], ◌∷◌,
  if◌then◌else◌,
}
use rfmarkit_esp_node.Battery.{
  Battery, BatteryBoard, BatteryCall, oneshot_read, call, adc_calibration_init, set_en_pin,
  read_voltage, battery_read_level, battery_msp_init,
}

-- What the converter measures, in mV.
unfoldable pub measured : Bool → (ℕ → ℕ) → ℕ → ℕ
measured calibrated cali adc_raw = if calibrated then cali adc_raw else adc_raw * 1100 / 4096

-- Whether every read of the converter saw the pin at this level.
unfoldable pub reads_at : Bool → List BatteryCall → Bool
reads_at level [] = true
reads_at level (oneshot_read seen adc_raw ∷ cs) =
    (if seen then level else not level) && reads_at level cs
reads_at level (_ ∷ cs) = reads_at level cs

-- A read in any state.
battery_read_level-close :
    (board : BatteryBoard) (cali : ℕ → ℕ) (adc_raw : ℕ) (b : Battery)
    → board.has_en_pin ≡ true
    → adc_raw < 4096
    → cali adc_raw * 5 < 2 ^ 32
    → reads_at board.en_value b.calls ≡ true
    → ((battery_read_level board cali adc_raw b).0 * 2 ≤ measured b.cali_enable cali adc_raw * 5)
      × (measured b.cali_enable cali adc_raw * 5
          ≤ (battery_read_level board cali adc_raw b).0 * 2 + 5)
      × (reads_at board.en_value (battery_read_level board cali adc_raw b).1.calls ≡ true)
      × ((battery_read_level board cali adc_raw b).1.en_level ≡ not board.en_value)
unfolding battery_read_level read_voltage set_en_pin call measured reads_at
battery_read_level-close board cali adc_raw b pin small fits reads = (
  ground (arith, pin, small, fits),
  ground (arith, pin, small, fits),
  ground (arith, pin, reads),
  ground (arith, pin),
)

msp_init-cali_enable :
    (board : BatteryBoard) (created : Bool) (cali : ℕ → ℕ) (adc_raw : ℕ) (b : Battery)
    → (battery_msp_init board created cali adc_raw b).cali_enable ≡ board.has_scheme && created
unfolding battery_msp_init battery_read_level adc_calibration_init read_voltage set_en_pin call
msp_init-cali_enable board created cali adc_raw b = ground arith

msp_init-reads_at :
    (board : BatteryBoard) (created : Bool) (cali : ℕ → ℕ) (adc_raw : ℕ) (b : Battery)
    → board.has_en_pin ≡ true
    → b.calls ≡ []
    → reads_at board.en_value (battery_msp_init board created cali adc_raw b).calls ≡ true
unfolding battery_msp_init battery_read_level adc_calibration_init read_voltage set_en_pin call
    reads_at
msp_init-reads_at board created cali adc_raw b pin none_yet = ground (arith, pin, none_yet)

-- On a board with the pin, after the set-up: the level, in millivolts, is at most 5 / 2 of the measured voltage, the ratio
-- of the divider, and at most 5 / 2 mV below it, for a value of the converter of 12 bits and a voltage that five times
-- fits a word. The voltage is that of ESP-IDF where the chip has a scheme for the calibration and it was created, and
-- else the value of the converter in parts of 1100 mV. Each value was read with the divider connected, and it is
-- disconnected after.
pub init-read-close :
    (board : BatteryBoard) (created : Bool) (cali : ℕ → ℕ) (adc_raw_0 adc_raw : ℕ) (b : Battery)
    → board.has_en_pin ≡ true
    → b.calls ≡ []
    → adc_raw < 4096
    → cali adc_raw * 5 < 2 ^ 32
    → (level : ℕ) × (b' : Battery) × (battery_read_level board cali adc_raw
          (battery_msp_init board created cali adc_raw_0 b)
        ≡ (level, b'))
      × (level * 2 ≤ measured (board.has_scheme && created) cali adc_raw * 5)
      × (measured (board.has_scheme && created) cali adc_raw * 5 ≤ level * 2 + 5)
      × (reads_at board.en_value b'.calls ≡ true)
      × (b'.en_level ≡ not board.en_value)
init-read-close board created cali adc_raw_0 adc_raw b pin none_yet small fits =
    let c = battery_msp_init board created cali adc_raw_0 b in
    let same =
      ap (λ t. measured t cali adc_raw) (msp_init-cali_enable board created cali adc_raw_0 b) in
    let (low, high, reads, off) =
      battery_read_level-close board cali adc_raw c pin small fits
        (msp_init-reads_at board created cali adc_raw_0 b pin none_yet) in
    (
      (battery_read_level board cali adc_raw c).0,
      (battery_read_level board cali adc_raw c).1,
      refl,
      omega (arith, low, same),
      omega (arith, high, same),
      reads,
      off,
    )
