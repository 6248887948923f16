-- ===== src/TimeSync/Tests.antt =====
-- The theorems on components/sys/time_sync.c at concrete runs.
use rfmarkit_esp_node.Base.{true, false, ◌≡◌, ◌≢◌, refl, arith, [], ◌∷◌}
use rfmarkit_esp_node.Node.Example.{a_node}
use rfmarkit_esp_node.Node.{sntp_setservername, sntp_init, sntp_stop}
use rfmarkit_esp_node.TimeSync.{Servers, sys_time_sync_handler}
use rfmarkit_esp_node.TimeSync.Fallback.{failures, handler-failures}

abbrev configured : Servers
configured = record {
  primary_max_retry = 2;
  timeout_s = 5;
  backup = b'3' ∷ [];
  gateway = b'4' ∷ [];
}

some_host : a_node.ntp_host_ip_addr ≢ []
some_host e = cc

handler-failures_example :
    ((sys_time_sync_handler configured (λ i. false) true (failures configured 3 a_node)).calls
      ≡ sntp_stop
        ∷ sntp_init
        ∷ sntp_setservername (b'3' ∷ [])
        ∷ (failures configured 3 a_node).calls)
    × ((failures configured 3 a_node).sntp_retry_num ≡ 3)
handler-failures_example =
    handler-failures configured 3 a_node (λ i. false) true (omega arith) some_host refl
