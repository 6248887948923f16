-- ===== src/Rest/Assign.antt =====
-- A POST to `nvs_variable_handler` of components/rest_controller/rest_controller_handlers.c: the variable that it sets.
use Prim.{tt}
use rfmarkit_esp_node.Base.{
  ℕ, suc, ◌≡◌, ◌≢◌, ◌∙◌, refl, ap, arith, Bool, true, false, ◌&&◌, not, none, some, List, [], ◌∷◌,
  ◌++◌, length, drop, leb, ◌==◌,
}
use rfmarkit_esp_node.Base.Text.{strrchr}
use rfmarkit_esp_node.Esp.{ok}
use rfmarkit_esp_node.Nvs.{var_names, var_type, stored_value}
use rfmarkit_esp_node.Nvs.Lookup.{NoQuery, AllNoQuery, first_named, sys_find_var-first_named}
use rfmarkit_esp_node.Node.{Node, call, nvs_set, sys_set_nvs_var}
use rfmarkit_esp_node.Rest.Url.{strchr, parse_url_kv_pair}
use rfmarkit_esp_node.Rest.Request.{http_post, Request, str, text, reply, respond, touch}
use rfmarkit_esp_node.Rest.Variables.{
  nvs_variable_handler, named, variable_method, post_variable, set_variable,
}
use rfmarkit_esp_node.Rest.Words.{value_key}

-- No slash stands in the text.
abbrev pub NoSlash : List ℕ → Type 0
NoSlash [] = Unit {0}
NoSlash (c ∷ cs) = (c ≢ b'/') × NoSlash cs

strrchr-NoSlash : (s : List ℕ) → NoSlash s → strrchr s b'/' ≡ none
unfolding strrchr
strrchr-NoSlash [] h = refl
strrchr-NoSlash (c ∷ cs) h = rw (strrchr-NoSlash cs h.1) (ground (arith, h.0))

strrchr-last : (path s : List ℕ) → NoSlash s → strrchr (path ++ b'/' ∷ s) b'/' ≡ some (b'/' ∷ s)
unfolding strrchr
strrchr-last [] s h = rw (strrchr-NoSlash s h) refl
strrchr-last (c ∷ cs) s h = rw (strrchr-last cs s h) refl

strchr-query :
    (name query : List ℕ) → NoQuery name → strchr (name ++ b'?' ∷ query) b'?' ≡ some (length name)
unfolding strchr
strchr-query [] query h = refl
strchr-query (c ∷ cs) query h = rw (strchr-query cs query h.1) (ground (arith, h.0))

drop-length : (name rest : List ℕ) → drop (length name) (name ++ rest) ≡ rest
drop-length [] rest = refl
drop-length (c ∷ cs) rest = drop-length cs rest

has_no_query : List ℕ → Bool
has_no_query [] = true
has_no_query (c ∷ cs) = not (c == b'?') && has_no_query cs

has_no_query-NoQuery : (s : List ℕ) → has_no_query s ≡ true → NoQuery s
unfolding has_no_query
has_no_query-NoQuery [] e = tt
has_no_query-NoQuery (c ∷ cs) e = (ground arith, has_no_query-NoQuery cs (ground arith))

all_plain : List (List ℕ) → Bool
unfolding has_no_query
all_plain [] = true
all_plain (t ∷ ts) = has_no_query t && all_plain ts

all_plain-AllNoQuery : (ts : List (List ℕ)) → all_plain ts ≡ true → AllNoQuery ts
unfolding all_plain
all_plain-AllNoQuery [] e = tt
all_plain-AllNoQuery (t ∷ ts) e =
    (has_no_query-NoQuery t (ground arith), all_plain-AllNoQuery ts (ground arith))

var_names-plain : AllNoQuery var_names
unfolding all_plain
var_names-plain = all_plain-AllNoQuery var_names refl

long_enough : (query : List ℕ) → query ≢ [] → leb (suc (length query)) 1 ≡ false
long_enough [] h = absurd (h refl)
long_enough (c ∷ cs) h = ground arith

name_long : (name query : List ℕ) → leb (suc (length (name ++ b'?' ∷ query))) 1 ≡ false
name_long [] query = ground arith
name_long (c ∷ cs) query = ground arith

post_variable-found :
    (req : Request) (name query value : List ℕ) (index : ℕ) (n : Node)
    → NoQuery name
    → query ≢ []
    → first_named var_names 0 name ≡ some index
    → parse_url_kv_pair 65 req.uri value_key ≡ some (ok, value)
    → post_variable req (name ++ b'?' ∷ query) (strchr (name ++ b'?' ∷ query) b'?') n
      ≡ some (
          reply 200
            (("uri", text req.uri) ∷ ("status", str "ok") ∷ [])
            (call (nvs_set index (stored_value (var_type index) value)) n))
unfolding post_variable set_variable sys_set_nvs_var respond reply
post_variable-found req name query value index n no_query some_query found parsed =
    rw (strchr-query name query no_query) (
      rw (drop-length name (b'?' ∷ query)) (
        rw (long_enough query some_query) (
          rw parsed (
            rw
              (sys_find_var-first_named var_names 0 name (b'?' ∷ query) var_names-plain refl
                ∙ found)
              refl))))

-- A POST whose address ends in `/<name>?<query>`, with a query that is not empty, no slash in the name or the query and
-- no `?` in the name, with the value that `parse_url_kv_pair` decodes from the address: where the name is in the table,
-- exactly that variable is stored in flash, as the number or the text that its type says, and nothing else changes but
-- the timer of the power saving. The answer is 200.
pub nvs_variable-stored :
    (stored : ℕ → List ℕ) (req : Request) (n : Node) (path name query value : List ℕ) (index : ℕ)
    → req.method ≡ http_post
    → req.uri ≡ path ++ b'/' ∷ (name ++ b'?' ∷ query)
    → NoSlash (name ++ b'?' ∷ query)
    → NoQuery name
    → query ≢ []
    → first_named var_names 0 name ≡ some index
    → parse_url_kv_pair 65 req.uri value_key ≡ some (ok, value)
    → nvs_variable_handler stored req n
      ≡ some (
          reply 200
            (("uri", text req.uri) ∷ ("status", str "ok") ∷ [])
            (call (nvs_set index (stored_value (var_type index) value)) (touch n)))
unfolding nvs_variable_handler named variable_method respond reply
nvs_variable-stored stored req n path name query value index post at no_slash no_query some_query
      found parsed =
    rw post (
      rw
        (ap (λ (u : List ℕ). strrchr u b'/') at ∙ strrchr-last path (name ++ b'?' ∷ query) no_slash)
        (rw (name_long name query) (
          post_variable-found req name query value index (touch n) no_query some_query found
            parsed)))
