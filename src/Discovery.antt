-- ===== src/Discovery.antt =====
-- components/sys/discovery.c: the decoding of the reply that completes the discovery.
pub mod Reply
pub mod Handler
mod Tests
use rfmarkit_esp_node.Base.{
  ℕ, zero, suc, ◌+◌, Bool, true, false, ◌&&◌, Option, none, some, List, [], ◌∷◌, length, get_or,
  take, drop, ltb, ◌==◌, if◌then◌else◌,
}
use rfmarkit_esp_node.Esp.{EspErr, ok, fail}

-- The loop over the magic number: whether the bytes from index i on, as many as are left, are all 229.
unfoldable pub magic_from : List ℕ → ℕ → ℕ → Bool
magic_from buf i zero = true
magic_from buf i (suc left) =
    let rest = magic_from buf (i + 1) left in if get_or buf i 0 == 229 then rest else false

-- `sys_decode_discovery_reply_control`: the 64 bytes of the packet, if the reply is accepted.
unfoldable pub sys_decode_discovery_reply_control : List ℕ → EspErr × Option (List ℕ)
unfolding magic_from
sys_decode_discovery_reply_control buf =
    if ltb (length buf) 71
    then (fail, none)
    else if magic_from buf 0 5
    then (if get_or buf 5 0 == 0 then (ok, some (take 64 (drop 7 buf))) else (fail, none))
    else (fail, none)
