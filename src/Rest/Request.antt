-- ===== src/Rest/Request.antt =====
-- Requests and responses of the handlers, and what every handler begins with.
use Prim.Native.String.{String}
use rfmarkit_esp_node.Base.{ℕ, Bool, Option, some, List}
use rfmarkit_esp_node.Base.OptionDo.{◌>>=◌}
use rfmarkit_esp_node.Base.Int.{ℤ}
use rfmarkit_esp_node.Power.{reset_power_save_timer}
use rfmarkit_esp_node.Node.{Node}
use rfmarkit_esp_node.Rest.Url.{parse_url_kv_pair}

pub data Method : Type 0 where
  http_get http_post http_other : Method

-- The `switch` on a method
abbrev pub by_method {ℓ} : {A : Type ℓ} → Method → A → A → A → A
by_method http_get x y z = x
by_method http_post x y z = y
by_method http_other x y z = z

-- `httpd_req_t`, as far as the handlers read it
pub record Request : Type 0 where
  pub method : Method
  pub uri : List ℕ

-- The values that are put into a response; `datagram` stands for the numbers of an `imu_dgram_t` with these bytes.
pub data Json : Type 0 where
  str : String → Json
  text : List ℕ → Json
  number : ℤ → Json
  seconds : (sec usec : ℤ) → Json
  flag : Bool → Json
  null : Json
  names : List (List ℕ) → Json
  datagram : List ℕ → Json

pub record Response : Type 0 where
  pub http_status : ℕ
  pub body : List (String × Json)

-- The result of a handler: none where it does something undefined.
abbrev pub Result : Type 0
Result = Option (Response × Node)

-- `reset_power_save_timer` at the start of a handler
unfoldable pub touch : Node → Node
unfolding reset_power_save_timer
touch n = record n { power = reset_power_save_timer n.power }

-- The status of the response is 200 if it is not set.
unfoldable pub reply : ℕ → List (String × Json) → Node → Response × Node
reply http_status body n = (record { http_status = http_status; body = body }, n)

unfoldable pub respond : ℕ → List (String × Json) → Node → Result
unfolding reply
respond http_status body n = some (reply http_status body n)

-- The text of a parameter in a buffer of `room` zero bytes; the code of `parse_url_kv_pair` is ignored.
unfoldable pub param : ℕ → Request → List ℕ → Option (List ℕ)
unfolding parse_url_kv_pair
param room req key = do parsed ← parse_url_kv_pair room req.uri key; some parsed.1
