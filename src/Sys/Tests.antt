-- ===== src/Sys/Tests.antt =====
-- The theorems on components/sys/sys.c at concrete data.
use rfmarkit_esp_node.Base.{
  ℕ, ◌+◌, some, none, true, false, ◌≡◌, ◌≢◌, refl, ap, get_or, arith, List, [], ◌∷◌, ◌++◌, length,
  replicate,
}
use rfmarkit_esp_node.Base.Text.{c_text}
use rfmarkit_esp_node.Sys.{Names, sys_init_chip, ble_local_name_prefix}
use rfmarkit_esp_node.Esp.{rollback_invalid_state}
use rfmarkit_esp_node.Base.Outcome.{done}
use rfmarkit_esp_node.Node.{Node, mark_app_valid}
use rfmarkit_esp_node.Node.Example.{a_node}
use rfmarkit_esp_node.Sys.Accounted.{
  start, stop, run_ops, created, deleted, held, no_tasks, run_ops-accounted,
}
use rfmarkit_esp_node.Sys.Guard.{sys_ota_guard, connects, verdict, sys_ota_guard-verdict}
use rfmarkit_esp_node.Sys.Naming.{sys_init_chip-names}

abbrev no_names : Names
no_names = record { device_id = replicate 12 0; device_id_sep = 0; ble_local_name = replicate 32 0 }

abbrev mac_1 : List ℕ
mac_1 = 0x24 ∷ 0x0a ∷ 0xc4 ∷ 0x00 ∷ 0x1f ∷ 0xff ∷ []

abbrev mac_2 : List ℕ
mac_2 = 0x24 ∷ 0x0a ∷ 0xc4 ∷ 0x00 ∷ 0x1f ∷ 0xfe ∷ []

mac_1-ne : mac_1 ≢ mac_2
mac_1-ne e = absurd (omega (arith, ap (λ xs. get_or xs 5 0) e))

sys_init_chip-names_example :
    (c_text (
        (sys_init_chip mac_1 no_names).device_id
        ++ (sys_init_chip mac_1 no_names).device_id_sep
          ∷ (sys_init_chip mac_1 no_names).ble_local_name)
      ≡ (sys_init_chip mac_1 no_names).device_id)
    × (length (sys_init_chip mac_1 no_names).device_id ≡ 12)
    × (c_text (sys_init_chip mac_1 no_names).ble_local_name
        ≡ ble_local_name_prefix ++ (sys_init_chip mac_1 no_names).device_id)
    × (c_text (sys_init_chip mac_1 no_names).ble_local_name
        ≢ c_text (sys_init_chip mac_2 no_names).ble_local_name)
sys_init_chip-names_example =
    sys_init_chip-names mac_1 mac_2 no_names no_names (record { size = refl; bytes = omega arith })
      (record { size = refl; bytes = omega arith }) refl mac_1-ne

-- A first start whose loop cannot be created, a stop that ends its caller at once, and a start again.
run_ops-accounted_example :
    created 7
      (run_ops
        (start (some 7) (some 8) none ∷ stop ∷ start none none (some 9) ∷ stop ∷ [])
        no_tasks).calls
    ≡ deleted 7
        (run_ops
          (start (some 7) (some 8) none ∷ stop ∷ start none none (some 9) ∷ stop ∷ [])
          no_tasks).calls
      + held 7 (
          run_ops
            (start (some 7) (some 8) none ∷ stop ∷ start none none (some 9) ∷ stop ∷ [])
            no_tasks)
run_ops-accounted_example =
    run_ops-accounted (start (some 7) (some 8) none ∷ stop ∷ start none none (some 9) ∷ stop ∷ []) 7

sys_ota_guard-verdict_example :
    (m : Node) × (sys_ota_guard true true rollback_invalid_state (false ∷ true ∷ []) a_node
      ≡ done m)
    × (m.calls ≡ mark_app_valid ∷ a_node.calls)
unfolding connects verdict
sys_ota_guard-verdict_example =
    sys_ota_guard-verdict true true rollback_invalid_state (false ∷ true ∷ []) a_node refl
