-- ===== src/Hi229/Driver/Delay.antt =====
-- `hi229_get_buffer_delay` of lib/hi229/hi229.c over the 5120 bytes of the UART's buffer.
use rfmarkit_esp_node.Base.{ℕ, ◌-◌, ◌*◌, ◌/◌, ◌^◌, ◌≤◌, ◌≡◌, ap, arith}
use rfmarkit_esp_node.Hi229.Driver.{hi229_get_buffer_delay}

-- The delay is the bytes over the speed up to 4294 bytes in the buffer; from 4295 to 5120 bytes it is too short by
-- what 2 ^ 32 stands for.
hi229_get_buffer_delay-wraps :
    (baud n : ℕ)
    → (n ≤ 4294 → hi229_get_buffer_delay baud n ≡ 1000000 * n / baud)
      × (4295 ≤ n → n ≤ 5120 → hi229_get_buffer_delay baud n ≡ (1000000 * n - 2 ^ 32) / baud)
unfolding hi229_get_buffer_delay
hi229_get_buffer_delay-wraps baud n =
    (λ h. ap (λ (t : ℕ). t / baud) (omega arith), λ h k. ap (λ (t : ℕ). t / baud) (omega arith))
