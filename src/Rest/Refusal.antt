-- ===== src/Rest/Refusal.antt =====
-- A request that a handler of components/rest_controller/rest_controller_handlers.c refuses.
use Prim.Native.String.{String}
use rfmarkit_esp_node.Base.{
  ℕ, ◌≡◌, ◌≢◌, refl, sym, ap, Bool, true, false, Option, none, some, List, [], ◌∷◌, if◌then◌else◌,
}
use rfmarkit_esp_node.Base.OptionDo.{◌>>=◌}
use rfmarkit_esp_node.Esp.{is_ok}
use rfmarkit_esp_node.Node.{Node}
use rfmarkit_esp_node.Base.Int.{ℤ, pos, negsuc}
use rfmarkit_esp_node.Blink.{
  LedStatus, led_unknown, led_off, led_on, led_duty, led_fast_flash, led_fast_breath,
  led_slow_breath, led_seq_enc,
}
use rfmarkit_esp_node.LedStatus.{sys_set_led_status}
use rfmarkit_esp_node.Rest.Request.{
  Method, by_method, http_get, http_post, http_other, Request, Json, str, text, Response, Result,
  touch, reply, respond,
}
use rfmarkit_esp_node.Rest.Routes.{
  Handler, system_info, system_power, system_upgrade, system_selftest, system_power_mgmt,
  nvs_variable, imu_calibrate, imu_toggle, imu_status, imu_debug_toggle, imu_debug_socket,
  blink_configure, blink_toggle, operation_mode, World, run,
}
use rfmarkit_esp_node.Rest.System.{
  system_info_handler, system_selftest_handler, system_power_mgmt_handler, imu_calibrate_handler,
  system_power_handler, system_upgrade_handler,
}
use rfmarkit_esp_node.Rest.Imu.{imu_status_handler, imu_toggle_handler, imu_debug_toggle_handler}
use rfmarkit_esp_node.Rest.Led.{
  blink_toggle_handler, operation_mode_handler, toggle_status, set_status, status_of,
}
use rfmarkit_esp_node.Base.Text.{strrchr}
use rfmarkit_esp_node.Node.{sys_set_nvs_var}
use rfmarkit_esp_node.Rest.Variables.{
  nvs_variable_handler, named, variable_method, get_variable, post_variable, set_variable,
}

-- The answer is 200, or the node is the one given, or what happens is undefined.
pub data IsAnsweredOr (n : Node) : Result → Type 0 where
  undefined : IsAnsweredOr n none
  answered : (body : List (String × Json)) (n' : Node) → IsAnsweredOr n (some (reply 200 body n'))
  kept :
      (http_status : ℕ) (body : List (String × Json))
      → IsAnsweredOr n (some (reply http_status body n))

if_either :
    (t : Bool) {x y : Result} {n : Node}
    → IsAnsweredOr n x
    → IsAnsweredOr n y
    → IsAnsweredOr n (if t then x else y)
if_either true a b = a
if_either false a b = b

bind_each :
    {A : Type 0} (o : Option A) {f : A → Result} {n : Node}
    → ((a : A) → IsAnsweredOr n (f a))
    → IsAnsweredOr n (o >>= f)
bind_each none h = undefined
bind_each (some a) h = h a

method_each :
    (m : Method) {x y z : Result} {n : Node}
    → IsAnsweredOr n x
    → IsAnsweredOr n y
    → IsAnsweredOr n z
    → IsAnsweredOr n (by_method m x y z)
method_each http_get a b c = a
method_each http_post a b c = b
method_each http_other a b c = c

ruleset refusals = (method_each, if_either, bind_each, undefined, answered, kept)

system_power-IsAnsweredOr :
    (req : Request) (n : Node) → IsAnsweredOr (touch n) (system_power_handler req n)
unfolding system_power_handler respond reply
system_power-IsAnsweredOr req n = search refusals depth 7

imu_toggle-IsAnsweredOr :
    (req : Request) (n : Node) → IsAnsweredOr (touch n) (imu_toggle_handler req n)
unfolding imu_toggle_handler respond reply
imu_toggle-IsAnsweredOr req n = search refusals depth 7

imu_debug_toggle-IsAnsweredOr :
    (req : Request) (n : Node) → IsAnsweredOr (touch n) (imu_debug_toggle_handler req n)
unfolding imu_debug_toggle_handler respond reply
imu_debug_toggle-IsAnsweredOr req n = search refusals depth 7

system_upgrade-IsAnsweredOr :
    (req : Request) (n : Node) → IsAnsweredOr (touch n) (system_upgrade_handler req n)
unfolding system_upgrade_handler respond reply
system_upgrade-IsAnsweredOr req n = search refusals depth 8

operation_mode-IsAnsweredOr :
    (req : Request) (n : Node) → IsAnsweredOr (touch n) (operation_mode_handler req n)
unfolding operation_mode_handler respond reply
operation_mode-IsAnsweredOr req n = search refusals depth 8

-- A number that is no status leaves the LED as it is.
set_either :
    (good bad : List (String × Json)) (status : Option LedStatus) (n : Node)
    → IsAnsweredOr n (
        let done = set_status status n in
        if is_ok done.0 then respond 200 good done.1 else respond 400 bad done.1)
unfolding set_status sys_set_led_status respond reply
set_either good bad none n = search refusals
set_either good bad (some led_unknown) n = search refusals
set_either good bad (some led_off) n = search refusals
set_either good bad (some led_on) n = search refusals
set_either good bad (some led_duty) n = search refusals
set_either good bad (some led_fast_flash) n = search refusals
set_either good bad (some led_fast_breath) n = search refusals
set_either good bad (some led_slow_breath) n = search refusals
set_either good bad (some led_seq_enc) n = search refusals

toggle_status-IsAnsweredOr :
    (target_state : List ℕ) (k : ℤ) (n : Node) → IsAnsweredOr n (toggle_status target_state k n)
unfolding toggle_status respond reply set_status
toggle_status-IsAnsweredOr target_state (negsuc k) n = search refusals
toggle_status-IsAnsweredOr target_state (pos k) n =
    search
      (
        refusals,
        set_either (("target_state", text target_state) ∷ ("status", str "ok") ∷ [])
            (("target_state", text target_state)
              ∷ ("status", str "invalid target_state value")
              ∷ [])
            (status_of k) n,
      )
      depth 7

blink_toggle-IsAnsweredOr :
    (req : Request) (n : Node) → IsAnsweredOr (touch n) (blink_toggle_handler req n)
unfolding blink_toggle_handler respond reply
blink_toggle-IsAnsweredOr req n = search (refusals, toggle_status-IsAnsweredOr) depth 8

set_variable-IsAnsweredOr :
    (req : Request) (value : List ℕ) (found : Option ℕ) (n : Node)
    → IsAnsweredOr n (set_variable req value found n)
unfolding set_variable sys_set_nvs_var respond reply
set_variable-IsAnsweredOr req value none n = search refusals
set_variable-IsAnsweredOr req value (some index) n = search refusals

post_variable-IsAnsweredOr :
    (req : Request) (name : List ℕ) (name_end : Option ℕ) (n : Node)
    → IsAnsweredOr n (post_variable req name name_end n)
unfolding post_variable respond reply
post_variable-IsAnsweredOr req name none n = search refusals
post_variable-IsAnsweredOr req name (some k) n =
    search (refusals, set_variable-IsAnsweredOr) depth 7

get_variable-IsAnsweredOr :
    (stored : ℕ → List ℕ) (req : Request) (found : Option ℕ) (n : Node)
    → IsAnsweredOr n (get_variable stored req found n)
unfolding get_variable respond reply
get_variable-IsAnsweredOr stored req none n = search refusals
get_variable-IsAnsweredOr stored req (some index) n = search refusals

variable_method-IsAnsweredOr :
    (stored : ℕ → List ℕ) (req : Request) (m : Method) (name : List ℕ) (n : Node)
    → IsAnsweredOr n (variable_method stored req m name n)
unfolding variable_method respond reply
variable_method-IsAnsweredOr stored req http_get name n = search get_variable-IsAnsweredOr
variable_method-IsAnsweredOr stored req http_post name n = search post_variable-IsAnsweredOr
variable_method-IsAnsweredOr stored req http_other name n = search refusals

named-IsAnsweredOr :
    (stored : ℕ → List ℕ) (req : Request) (last_slash : Option (List ℕ)) (n : Node)
    → IsAnsweredOr n (named stored req last_slash n)
unfolding named respond reply
named-IsAnsweredOr stored req none n = search refusals
named-IsAnsweredOr stored req (some s) n = search (refusals, variable_method-IsAnsweredOr)

nvs_variable-IsAnsweredOr :
    (stored : ℕ → List ℕ) (req : Request) (n : Node)
    → IsAnsweredOr (touch n) (nvs_variable_handler stored req n)
unfolding nvs_variable_handler
nvs_variable-IsAnsweredOr stored req n =
    named-IsAnsweredOr stored req (strrchr req.uri b'/') (touch n)

run-IsAnsweredOr :
    (w : World) (socket : Result) (h : Handler) (req : Request) (n : Node)
    → h ≢ blink_configure
    → h ≢ imu_debug_socket
    → IsAnsweredOr (touch n) (run w socket h req n)
unfolding run system_info_handler system_selftest_handler system_power_mgmt_handler
    imu_calibrate_handler imu_status_handler respond reply
run-IsAnsweredOr w socket system_info req n b s = search refusals
run-IsAnsweredOr w socket system_power req n b s = system_power-IsAnsweredOr req n
run-IsAnsweredOr w socket system_upgrade req n b s = system_upgrade-IsAnsweredOr req n
run-IsAnsweredOr w socket system_selftest req n b s = search refusals
run-IsAnsweredOr w socket system_power_mgmt req n b s = search refusals
run-IsAnsweredOr w socket nvs_variable req n b s = nvs_variable-IsAnsweredOr w.stored req n
run-IsAnsweredOr w socket imu_calibrate req n b s = search refusals
run-IsAnsweredOr w socket imu_toggle req n b s = imu_toggle-IsAnsweredOr req n
run-IsAnsweredOr w socket imu_status req n b s = search refusals
run-IsAnsweredOr w socket imu_debug_toggle req n b s = imu_debug_toggle-IsAnsweredOr req n
run-IsAnsweredOr w socket imu_debug_socket req n b s = absurd (s refl)
run-IsAnsweredOr w socket blink_configure req n b s = absurd (b refl)
run-IsAnsweredOr w socket blink_toggle req n b s = blink_toggle-IsAnsweredOr req n
run-IsAnsweredOr w socket operation_mode req n b s = operation_mode-IsAnsweredOr req n

abbrev status_in : Result → ℕ
status_in none = 0
status_in (some answer) = answer.0.http_status

abbrev node_in : Node → Result → Node
node_in n none = n
node_in n (some answer) = answer.1

unchanged :
    {n : Node} {x : Result}
    → IsAnsweredOr n x
    → (r : Response) (n' : Node) → x ≡ some (r, n')
    → r.http_status ≢ 200
    → n' ≡ n
unfolding reply
unchanged undefined r n' e refused = cc
unchanged (answered body m) r n' e refused = absurd (refused (sym (ap status_in e)))
unchanged {n} (kept k body) r n' e refused = sym (ap (node_in n) e)

-- Whatever the chip, the driver and the flash answer: a request that a handler refuses, that is answers with a status
-- other than 200, has changed nothing but the timer of the power saving. The handlers are those of the table, without
-- `blink_configure_handler` and without the socket.
pub run-refused :
    (w : World) (socket : Result) (h : Handler) (req : Request) (n : Node)
    → h ≢ blink_configure
    → h ≢ imu_debug_socket
    → (r : Response) (n' : Node) → run w socket h req n ≡ some (r, n')
    → r.http_status ≢ 200
    → n' ≡ touch n
run-refused w socket h req n no_blink no_socket r n' e refused =
    unchanged (run-IsAnsweredOr w socket h req n no_blink no_socket) r n' e refused
