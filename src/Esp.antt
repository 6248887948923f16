-- ===== src/Esp.antt =====
-- Error codes of ESP-IDF (`esp_err_t`), as far as the firmware returns or tests them.
use Prim.Native.Nat.{ℕ}
use rfmarkit_esp_node.Base.{Bool, true, false}

pub data EspErr : Type 0 where
  ok fail no_mem invalid_arg not_found rollback_invalid_state : EspErr
  other : ℕ → EspErr

-- `err == ESP_OK`
abbrev pub is_ok : EspErr → Bool
is_ok ok = true
is_ok _ = false
