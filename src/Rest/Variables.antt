-- ===== src/Rest/Variables.antt =====
-- `nvs_variable_handler` of components/rest_controller/rest_controller_handlers.c. The variables are named after the
-- last slash of the address, the query included.
use rfmarkit_esp_node.Base.{ℕ, Option, none, some, List, [], ◌∷◌, length, drop, leb, if◌then◌else◌}
use rfmarkit_esp_node.Base.OptionDo.{◌>>=◌}
use rfmarkit_esp_node.Base.Text.{strrchr}
use rfmarkit_esp_node.Esp.{is_ok}
use rfmarkit_esp_node.Nvs.{sys_find_var, var_names}
use rfmarkit_esp_node.Node.{Node, sys_set_nvs_var}
use rfmarkit_esp_node.Rest.Url.{strchr, parse_url_kv_pair}
use rfmarkit_esp_node.Rest.Request.{
  Method, http_get, http_post, http_other, Request, str, text, Result, touch, respond,
}
use rfmarkit_esp_node.Rest.Words.{value_key}

-- The end of a GET: `stored` is what `sys_get_nvs_var` prints for a variable.
unfoldable pub get_variable : (ℕ → List ℕ) → Request → Option ℕ → Node → Result
unfolding respond
get_variable stored req none n =
    respond 400 (("uri", text req.uri) ∷ ("status", str "invalid name") ∷ []) n
get_variable stored req (some index) n =
    respond 200 (("uri", text req.uri) ∷ ("value", text (stored index)) ∷ ("status", str "ok") ∷ [])
      n

-- The end of a POST, for the entry that was found.
unfoldable pub set_variable : Request → List ℕ → Option ℕ → Node → Result
unfolding respond sys_set_nvs_var
set_variable req value none n =
    respond 400 (("uri", text req.uri) ∷ ("status", str "invalid name") ∷ []) n
set_variable req value (some index) n =
    let done = sys_set_nvs_var index value n in
    if is_ok done.0
    then respond 200 (("uri", text req.uri) ∷ ("status", str "ok") ∷ []) done.1
    else respond 500 (("uri", text req.uri) ∷ ("status", str "cannot set value") ∷ []) done.1

-- A POST: `name_end` is where the query begins; a `?` alone is an empty value. The buffer has 65 bytes.
unfoldable pub post_variable : Request → List ℕ → Option ℕ → Node → Result
unfolding respond parse_url_kv_pair set_variable sys_find_var
post_variable req name none n =
    respond 400 (("uri", text req.uri) ∷ ("status", str "empty value") ∷ []) n
post_variable req name (some name_end) n =
    if leb (length (drop name_end name)) 1
    then respond 400 (("uri", text req.uri) ∷ ("status", str "empty value") ∷ []) n
    else (do
      parsed ← parse_url_kv_pair 65 req.uri value_key
      if is_ok parsed.0
          then set_variable req parsed.1 (sys_find_var var_names 0 name name_end) n
          else respond 400 (("uri", text req.uri) ∷ ("status", str "invalid value") ∷ []) n)

unfoldable pub variable_method : (ℕ → List ℕ) → Request → Method → List ℕ → Node → Result
unfolding respond get_variable post_variable sys_find_var strchr
variable_method stored req http_get name n =
    get_variable stored req (sys_find_var var_names 0 name (length name)) n
variable_method stored req http_post name n = post_variable req name (strchr name b'?') n
variable_method stored req http_other name n =
    respond 400 (("uri", text req.uri) ∷ ("status", str "invalid method") ∷ []) n

-- The name is what follows the last slash.
unfoldable pub named : (ℕ → List ℕ) → Request → Option (List ℕ) → Node → Result
unfolding respond variable_method
named stored req none n = respond 400 (("uri", text req.uri) ∷ ("status", str "empty name") ∷ []) n
named stored req (some last_slash) n =
    if leb (length last_slash) 1
    then respond 400 (("uri", text req.uri) ∷ ("status", str "empty name") ∷ []) n
    else variable_method stored req req.method (drop 1 last_slash) n

-- `nvs_variable_handler`
unfoldable pub nvs_variable_handler : (ℕ → List ℕ) → Request → Node → Result
unfolding touch named strrchr
nvs_variable_handler stored req n = named stored req (strrchr req.uri b'/') (touch n)
