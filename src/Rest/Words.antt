-- ===== src/Rest/Words.antt =====
-- The keys and words that the request handlers compare with.
use rfmarkit_esp_node.Base.{ℕ, List, [], ◌∷◌}

abbrev pub target_state_key : List ℕ
target_state_key =
    b't' ∷ b'a' ∷ b'r' ∷ b'g' ∷ b'e' ∷ b't' ∷ b'_' ∷ b's' ∷ b't' ∷ b'a' ∷ b't' ∷ b'e' ∷ []

abbrev pub ota_url_key : List ℕ
ota_url_key = b'o' ∷ b't' ∷ b'a' ∷ b'_' ∷ b'u' ∷ b'r' ∷ b'l' ∷ []

abbrev pub value_key : List ℕ
value_key = b'v' ∷ b'a' ∷ b'l' ∷ b'u' ∷ b'e' ∷ []

abbrev pub mode_key : List ℕ
mode_key = b'm' ∷ b'o' ∷ b'd' ∷ b'e' ∷ []

abbrev pub seq_key : List ℕ
seq_key = b's' ∷ b'e' ∷ b'q' ∷ []

abbrev pub action_key : List ℕ
action_key = b'a' ∷ b'c' ∷ b't' ∷ b'i' ∷ b'o' ∷ b'n' ∷ []

abbrev pub reboot_text : List ℕ
reboot_text = b'r' ∷ b'e' ∷ b'b' ∷ b'o' ∷ b'o' ∷ b't' ∷ []

abbrev pub shutdown_text : List ℕ
shutdown_text = b's' ∷ b'h' ∷ b'u' ∷ b't' ∷ b'd' ∷ b'o' ∷ b'w' ∷ b'n' ∷ []

abbrev pub enable_text : List ℕ
enable_text = b'e' ∷ b'n' ∷ b'a' ∷ b'b' ∷ b'l' ∷ b'e' ∷ []

abbrev pub disable_text : List ℕ
disable_text = b'd' ∷ b'i' ∷ b's' ∷ b'a' ∷ b'b' ∷ b'l' ∷ b'e' ∷ []

abbrev pub auto_text : List ℕ
auto_text = b'a' ∷ b'u' ∷ b't' ∷ b'o' ∷ []

abbrev pub manual_text : List ℕ
manual_text = b'm' ∷ b'a' ∷ b'n' ∷ b'u' ∷ b'a' ∷ b'l' ∷ []

abbrev pub off_text : List ℕ
off_text = b'o' ∷ b'f' ∷ b'f' ∷ []

abbrev pub start_text : List ℕ
start_text = b's' ∷ b't' ∷ b'a' ∷ b'r' ∷ b't' ∷ []

abbrev pub stop_text : List ℕ
stop_text = b's' ∷ b't' ∷ b'o' ∷ b'p' ∷ []
