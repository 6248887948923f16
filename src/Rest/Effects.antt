-- ===== src/Rest/Effects.antt =====
-- What the requests of components/rest_controller/rest_controller_handlers.c that are answered with 200 do: the status of the LED, the
-- operation mode and the variables in flash.
use Prim.Native.String.{String}
use rfmarkit_esp_node.Base.{
  ℕ, ◌≡◌, ◌∙◌, refl, sym, ap, arith, Bool, true, false, Option, none, some, List, [], ◌∷◌, ltb,
  ◌==◌, if◌then◌else◌,
}
use rfmarkit_esp_node.Base.Text.{strtol10}
use rfmarkit_esp_node.Base.Int.{ℤ, pos, negsuc}
use rfmarkit_esp_node.Esp.{is_ok}
use rfmarkit_esp_node.Blink.{
  Blink, LedStatus, led_unknown, led_off, led_on, led_duty, led_fast_flash, led_fast_breath,
  led_slow_breath, led_seq_enc, number, blink_led_off, blink_led_on, blink_led_fast_flash,
  blink_led_start_fast_breath_pattern, blink_led_start_slow_breath_pattern,
  blink_start_seq_enc_pattern, start_pattern,
}
use rfmarkit_esp_node.LedStatus.{sys_set_led_status}
use rfmarkit_esp_node.Node.{
  Node, imu_mux_stream, imu_mux_idle, sys_mode_change_handler, mode_change,
}
use rfmarkit_esp_node.Rest.Request.{
  by_method, http_get, http_post, Request, Json, flag, str, text, Response, Result, reply, respond,
  touch, param,
}
use rfmarkit_esp_node.Rest.Request as Request
use rfmarkit_esp_node.Rest.Words.{target_state_key, action_key, start_text, stop_text}
use rfmarkit_esp_node.Rest.Led.{
  blink_toggle_handler, toggle_status, set_status, status_of, operation_mode_handler, is_fail,
  is_ready,
}

-- A start of a pattern leaves its status, also where it is shown already.
shown_after :
    (s : LedStatus) (b b' : Blink)
    → number b'.led_status ≡ number s
    → number (if number b.led_status == number s then b else b').led_status ≡ number s
shown_after s b b' e = ground arith

sys_set_led_status-shown :
    (s : LedStatus) (b : Blink)
    → is_ok (sys_set_led_status s b).0 ≡ true
    → number (sys_set_led_status s b).1.led_status ≡ number s
unfolding sys_set_led_status blink_led_off blink_led_on blink_led_fast_flash
    blink_led_start_fast_breath_pattern blink_led_start_slow_breath_pattern
    blink_start_seq_enc_pattern start_pattern
sys_set_led_status-shown led_on b e = refl
sys_set_led_status-shown led_off b e = refl
sys_set_led_status-shown led_unknown b e = absurd cc
sys_set_led_status-shown led_duty b e = absurd cc
sys_set_led_status-shown led_fast_flash b e = shown_after led_fast_flash b _ refl
sys_set_led_status-shown led_fast_breath b e = shown_after led_fast_breath b _ refl
sys_set_led_status-shown led_slow_breath b e = shown_after led_slow_breath b _ refl
sys_set_led_status-shown led_seq_enc b e = shown_after led_seq_enc b _ refl

abbrev number_or : ℕ → Option LedStatus → ℕ
number_or k none = k
number_or k (some s) = number s

number-status_of : (k : ℕ) → number_or k (status_of k) ≡ k
unfolding status_of number
number-status_of k = ground arith

shown_of :
    (k : ℕ) (n : Node) (o : Option LedStatus)
    → status_of k ≡ o
    → is_ok (set_status o n).0 ≡ true
    → number (set_status o n).1.blink.led_status ≡ k
unfolding set_status
shown_of k n none h e = absurd cc
shown_of k n (some s) h e =
    sys_set_led_status-shown s n.blink e ∙ sym (ap (number_or k) h) ∙ number-status_of k

abbrev status_in : Result → ℕ
status_in none = 0
status_in (some answer) = answer.0.http_status

abbrev led_in : ℕ → Result → ℕ
led_in k none = k
led_in k (some answer) = number answer.1.blink.led_status

-- An answer with 200 after the two tests: the number was above 0 and a status.
answered_200 :
    (above known : Bool) (good bad bad' : List (String × Json)) (m n n' : Node) (r : Response)
    (k : ℕ)
    → (if above
        then (if known then respond 200 good m else respond 400 bad m)
        else respond 400 bad' n)
      ≡ some (r, n')
    → r.http_status ≡ 200
    → (known ≡ true → number m.blink.led_status ≡ k)
    → number n'.blink.led_status ≡ k
unfolding respond reply
answered_200 true true good bad bad' m n n' r k e s f = sym (ap (led_in k) e) ∙ f refl
answered_200 true false good bad bad' m n n' r k e s f = absurd (omega (arith, ap status_in e))
answered_200 false known good bad bad' m n n' r k e s f = absurd (omega (arith, ap status_in e))

toggle_status-shown :
    (t : List ℕ) (v : ℤ) (n : Node) (r : Response) (n' : Node)
    → toggle_status t v n ≡ some (r, n')
    → r.http_status ≡ 200
    → pos (number n'.blink.led_status) ≡ v
unfolding toggle_status respond reply
toggle_status-shown t (negsuc k) n r n' e s = absurd (omega (arith, ap status_in e))
toggle_status-shown t (pos k) n r n' e s =
    ap pos (answered_200 (ltb 0 k) _ _ _ _ _ n n' r k e s (shown_of k n (status_of k) refl))

blink_toggle-post :
    (req : Request) (n : Node) (t : List ℕ)
    → req.method ≡ http_post
    → param 129 req target_state_key ≡ some t
    → blink_toggle_handler req n ≡ toggle_status t (strtol10 t).0 (touch n)
unfolding blink_toggle_handler
blink_toggle-post req n t post p = rw post (rw p refl)

-- A POST to `blink_toggle_handler` that is answered with 200: a GET after it answers with the number that `strtol`
-- reads from the request.
blink_toggle-shown :
    (req get : Request) (n : Node) (t : List ℕ) (r : Response) (n' : Node)
    → req.method ≡ http_post
    → param 129 req target_state_key ≡ some t
    → blink_toggle_handler req n ≡ some (r, n')
    → r.http_status ≡ 200
    → get.method ≡ http_get
    → blink_toggle_handler get n'
      ≡ some (reply 200 (("state", Request.number (strtol10 t).0) ∷ []) (touch n'))
unfolding blink_toggle_handler respond reply
blink_toggle-shown req get n t r n' post p e s g = rw g (
    ap (λ (v : ℤ). some (reply 200 (("state", Request.number v) ∷ []) (touch n')))
      (toggle_status-shown t (strtol10 t).0 (touch n) r n'
        (sym (blink_toggle-post req n t post p) ∙ e) s))

abbrev action_of : Bool → List ℕ
action_of true = start_text
action_of false = stop_text

-- A POST to `operation_mode_handler` with `start` or `stop` is answered with 200 and raises the event of a mode change.
-- After the handler of that event has run, the sensor's readings stream or rest accordingly, and a GET answers with
-- that mode; the status is then `fail` for a failed sensor, and otherwise `running` after a start.
operation_mode-set :
    (active : Bool) (req get : Request) (n : Node)
    → req.method ≡ http_post
    → param 129 req action_key ≡ some (action_of active)
    → get.method ≡ http_get
    → (r : Response) × (n' : Node) × (operation_mode_handler req n ≡ some (r, n'))
      × (r.http_status ≡ 200)
      × (n'.sys_events ≡ mode_change ∷ n.sys_events)
      × ((sys_mode_change_handler n').imu_mux ≡ (if active then imu_mux_stream else imu_mux_idle))
      × (operation_mode_handler get (sys_mode_change_handler n')
          ≡ some (
              reply 200
                (("active", flag active)
                  ∷ (
                    "imu_status",
                    str (
                        if is_fail n.imu_status
                        then "fail"
                        else if active
                        then "running"
                        else if is_ready n.imu_status
                        then "ready"
                        else "unknown"),
                  )
                  ∷ [])
                (touch (sys_mode_change_handler n'))))
unfolding operation_mode_handler respond reply sys_mode_change_handler touch
operation_mode-set true req get n post p g =
    rw post (rw p (rw g (_, _, refl, refl, refl, refl, refl)))
operation_mode-set false req get n post p g =
    rw post (rw p (rw g (_, _, refl, refl, refl, refl, refl)))
