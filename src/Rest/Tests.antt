-- ===== src/Rest/Tests.antt =====
-- The theorems on components/rest_controller/rest_controller_handlers.c at concrete requests.
use Prim.{tt}
use rfmarkit_esp_node.Base.{ℕ, ◌≡◌, refl, arith, true, none, some, List, [], ◌∷◌, ◌++◌}
use rfmarkit_esp_node.Base.Int.{pos}
use rfmarkit_esp_node.Nvs.{blob, stored_value, var_type, wifi_ssid_name}
use rfmarkit_esp_node.Nvs.Lookup.{first_named}
use rfmarkit_esp_node.Node.{Node, call, nvs_set}
use rfmarkit_esp_node.Node.Example.{a_node, standby}
use rfmarkit_esp_node.Power.{timer_reset}
use rfmarkit_esp_node.Rest.Url.{parse_url_kv_pair}
use rfmarkit_esp_node.Rest.Request.{
  Request, Result, Response, http_get, http_post, str, text, flag, reply, respond, touch, param,
}
use rfmarkit_esp_node.Rest.Request as Request
use rfmarkit_esp_node.Rest.Words.{action_key, value_key}
use rfmarkit_esp_node.Rest.System.{Chip}
use rfmarkit_esp_node.Rest.Variables.{nvs_variable_handler}
use rfmarkit_esp_node.Rest.Led.{operation_mode_handler}
use rfmarkit_esp_node.Rest.Routes.{World, operation_mode, run}
use rfmarkit_esp_node.Rest.Refusal.{run-refused}
use rfmarkit_esp_node.Rest.Assign.{nvs_variable-stored}

abbrev chip : Chip
chip = record {
  version = "1.0";
  tv_sec = pos 0;
  tv_usec = pos 0;
  tsf_time = pos 0;
  battery_level = pos 90;
}

abbrev world : World
world = record { chip = chip; powered = true; reading = none; stored = λ index. [] }

abbrev posted_to : List ℕ → Request
posted_to uri = record { method = http_post; uri = uri }

-- ?action=
abbrev action_query : List ℕ
action_query = b'?' ∷ (action_key ++ (b'=' ∷ []))

abbrev a_refusal : Response
a_refusal = record {
  http_status = 400;
  body =
      ("action", text (b'x' ∷ []))
      ∷ ("imu_status", Request.number (pos 1))
      ∷ ("status", str "invalid action value")
      ∷ [];
}

abbrev timer_was_reset : Node
timer_was_reset = record a_node { power = record standby { calls = timer_reset ∷ [] } }

run-refused_example : timer_was_reset ≡ touch a_node
unfolding run operation_mode_handler
run-refused_example =
    run-refused world none operation_mode (posted_to (action_query ++ (b'x' ∷ []))) a_node
      (λ e. absurd cc) (λ e. absurd cc) a_refusal timer_was_reset refl (omega arith)

-- /WIFI_SSID?value=a
abbrev ssid_uri : List ℕ
ssid_uri = b'/' ∷ (wifi_ssid_name ++ b'?' ∷ (value_key ++ (b'=' ∷ b'a' ∷ [])))

nvs_variable-stored_example :
    nvs_variable_handler (λ index. []) (posted_to ssid_uri) a_node
    ≡ some (
        reply 200
          (("uri", text ssid_uri) ∷ ("status", str "ok") ∷ [])
          (call (nvs_set 0 (blob (b'a' ∷ []))) (touch a_node)))
unfolding first_named parse_url_kv_pair stored_value var_type
nvs_variable-stored_example =
    nvs_variable-stored (λ index. []) (posted_to ssid_uri) a_node [] wifi_ssid_name
      (value_key ++ (b'=' ∷ b'a' ∷ [])) (b'a' ∷ []) 0 refl refl
      (
        omega arith,
        (
          omega arith,
          (
            omega arith,
            (
              omega arith,
              (
                omega arith,
                (
                  omega arith,
                  (
                    omega arith,
                    (
                      omega arith,
                      (
                        omega arith,
                        (
                          omega arith,
                          (
                            omega arith,
                            (
                              omega arith,
                              (
                                omega arith,
                                (omega arith, (omega arith, (omega arith, (omega arith, tt)))),
                              ),
                            ),
                          ),
                        ),
                      ),
                    ),
                  ),
                ),
              ),
            ),
          ),
        ),
      )
      (
        omega arith,
        (
          omega arith,
          (
            omega arith,
            (
              omega arith,
              (omega arith, (omega arith, (omega arith, (omega arith, (omega arith, tt))))),
            ),
          ),
        ),
      )
      (λ e. absurd cc) refl refl
