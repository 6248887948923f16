-- ===== src/Battery/Tests.antt =====
-- The theorem on lib/battery/battery.c at a chip that has no calibration.
use rfmarkit_esp_node.Base.{ℕ, ◌+◌, ◌*◌, ◌≤◌, ◌≡◌, refl, arith, true, false, []}
use rfmarkit_esp_node.Battery.{Battery, BatteryBoard, battery_msp_init, battery_read_level}
use rfmarkit_esp_node.Battery.Level.{measured, reads_at, init-read-close}

abbrev divider_board : BatteryBoard
divider_board = record { has_en_pin = true; en_value = true; has_scheme = false }

abbrev cold : Battery
cold = record { cali_enable = true; en_level = false; calls = [] }

-- The largest value of the converter gives 1099 mV, and so 2745 mV for the battery.
init-read-close_example :
    (level : ℕ) × (b : Battery) × (battery_read_level divider_board
        (λ x. x)
        4095
        (battery_msp_init divider_board false (λ x. x) 17 cold)
      ≡ (level, b))
    × (level * 2 ≤ 1099 * 5)
    × (1099 * 5 ≤ level * 2 + 5)
    × (reads_at true b.calls ≡ true)
    × (b.en_level ≡ false)
unfolding measured
init-read-close_example =
    init-read-close divider_board false (λ x. x) 17 4095 cold refl refl (omega arith) (omega arith)
