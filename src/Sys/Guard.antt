-- ===== src/Sys/Guard.antt =====
-- `sys_ota_guard` of components/sys/sys.c.
use rfmarkit_esp_node.Base.{
  ◌≡◌, refl, arith, Bool, true, false, ◌||◌, List, [], ◌∷◌, ◌++◌, if◌then◌else◌,
}
use rfmarkit_esp_node.Base.Outcome.{Outcome, done, out_of_fuel}
use rfmarkit_esp_node.Esp.{
  EspErr, ok, fail, no_mem, invalid_arg, not_found, rollback_invalid_state, other, is_ok,
}
use rfmarkit_esp_node.Node.{Node, Call, call, restart, mark_app_valid}
use rfmarkit_esp_node.Loop.{sys_ota_perform}

-- `err == ESP_ERR_OTA_ROLLBACK_INVALID_STATE`
unfoldable pub is_rollback_invalid_state : EspErr → Bool
is_rollback_invalid_state rollback_invalid_state = true
is_rollback_invalid_state _ = false

-- The attempt and what follows it; a restart does not return.
unfoldable pub try_update : EspErr → Node → Node
unfolding sys_ota_perform is_rollback_invalid_state call
try_update ret n =
    let m = sys_ota_perform ret n in
    if is_ok ret
    then m
    else if is_rollback_invalid_state ret
    then call mark_app_valid m
    else call restart m

-- The loop, with whether the Wi-Fi is connected each time it looks.
unfoldable pub await_wifi : EspErr → List Bool → Node → Outcome Node
unfolding try_update
await_wifi ret [] n = out_of_fuel
await_wifi ret (connected ∷ looks) n =
    let again = await_wifi ret looks n in
    if connected then done (try_update ret (record n { wifi_connected = true })) else again

-- `sys_ota_guard`, with whether `CONFIG_OTA_GUARD_ENABLED` is defined, what `sys_ota_uncommitted` answers, and what
-- `esp_https_ota` returns
unfoldable pub sys_ota_guard :
    (guard_enabled ota_uncommitted : Bool) → EspErr → List Bool → Node → Outcome Node
unfolding await_wifi call
sys_ota_guard true true ret looks n = await_wifi ret looks n
sys_ota_guard true false ret looks n = done n
sys_ota_guard false true ret looks n = done (call mark_app_valid (call mark_app_valid n))
sys_ota_guard false false ret looks n = done n

unfoldable pub connects : List Bool → Bool
connects [] = false
connects (c ∷ cs) = c || connects cs

-- What the guard calls.
unfoldable pub verdict : (guard_enabled ota_uncommitted : Bool) → EspErr → List Call
verdict guard_enabled false ret = []
verdict false true ret = mark_app_valid ∷ mark_app_valid ∷ []
verdict true true rollback_invalid_state = mark_app_valid ∷ []
verdict true true _ = restart ∷ []

try_update-verdict :
    (ret : EspErr) (n : Node) → (try_update ret n).calls ≡ verdict true true ret ++ n.calls
unfolding try_update sys_ota_perform is_rollback_invalid_state verdict call
try_update-verdict ok n = refl
try_update-verdict fail n = refl
try_update-verdict no_mem n = refl
try_update-verdict invalid_arg n = refl
try_update-verdict not_found n = refl
try_update-verdict rollback_invalid_state n = refl
try_update-verdict (other c) n = refl

await_wifi-verdict :
    (ret : EspErr) (looks : List Bool) (n : Node)
    → connects looks ≡ true
    → (m : Node) × (await_wifi ret looks n ≡ done m) × (m.calls ≡ verdict true true ret ++ n.calls)
unfolding await_wifi connects
await_wifi-verdict ret [] n h = absurd (ground (arith, h))
await_wifi-verdict ret (true ∷ looks) n h =
    (_, refl, try_update-verdict ret (record n { wifi_connected = true }))
await_wifi-verdict ret (false ∷ looks) n h = await_wifi-verdict ret looks n h

-- If the Wi-Fi is connected at some look, the guard ends. A firmware that is committed is left as it is. One that is not is
-- confirmed, in a build without the guard in any case, and in a build with it exactly where the update is
-- refused because the state of the firmware does not allow a rollback; else the node restarts once.
pub sys_ota_guard-verdict :
    (guard_enabled ota_uncommitted : Bool) (ret : EspErr) (looks : List Bool) (n : Node)
    → connects looks ≡ true
    → (m : Node) × (sys_ota_guard guard_enabled ota_uncommitted ret looks n ≡ done m)
      × (m.calls ≡ verdict guard_enabled ota_uncommitted ret ++ n.calls)
unfolding sys_ota_guard verdict call
sys_ota_guard-verdict true true ret looks n h = await_wifi-verdict ret looks n h
sys_ota_guard-verdict true false ret looks n h = (n, refl, refl)
sys_ota_guard-verdict false true ret looks n h = (_, refl, refl)
sys_ota_guard-verdict false false ret looks n h = (n, refl, refl)
