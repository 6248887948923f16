-- ===== src/Rest/Configure.antt =====
-- The POST of `blink_configure_handler` of components/rest_controller/rest_controller_handlers.c: the mode that stays
-- after a refusal, and the sequence numbers that fit in its buffer.
use rfmarkit_esp_node.Base.{
  ℕ, ◌+◌, ◌*◌, ◌/◌, ◌%◌, ◌<◌, ◌≤◌, ◌≡◌, ◌≢◌, ◌↔◌, ◌∙◌, refl, ap, arith, true, false, Option, none,
  some, List, [], ◌∷◌, length, lt→ltb, ltb, ◌==◌,
}
use rfmarkit_esp_node.Base.OptionDo.{◌>>=◌}
use rfmarkit_esp_node.Base.Text.{
  strtol10, itoa, three_digits, with_sign, after_sign, skip_spaces, read_digits, is_digit, signed,
}
use rfmarkit_esp_node.Base.Int.{ℤ, pos, negsuc}
use rfmarkit_esp_node.Nvs.{int32, stored_value, sys_find_var, var_type}
use rfmarkit_esp_node.Node.{Node, call, nvs_set, set_sys_event, led_status_changed, sys_set_nvs_var}
use rfmarkit_esp_node.Rest.Request.{http_post, Request, str, text, reply, respond, touch, param}
use rfmarkit_esp_node.Rest.Words.{mode_key, seq_key, manual_text}
use rfmarkit_esp_node.Rest.Led.{
  blink_configure_handler, configure_after_mode, configure_seq, set_led_mode, store_seq, rem_int,
}

not_zero : (k : ℕ) → k ≢ 0 → (k == 0) ≡ false
not_zero k h = ground arith

-- A sequence number that something follows is refused, after the mode was taken over.
configure_seq-rest :
    (mode seq : List ℕ) (n : Node)
    → length seq ≢ 0
    → length (strtol10 seq).1 ≢ 0
    → configure_seq mode seq n
      ≡ some (
          reply 400
            (("mode", text mode) ∷ ("seq", text seq) ∷ ("status", str "invalid seq value") ∷ [])
            n)
unfolding configure_seq respond reply
configure_seq-rest mode seq n given rest =
    rw (not_zero (length seq) given) (rw (not_zero (length (strtol10 seq).1) rest) refl)

one_digit : (a : ℕ) → a < 10 → (strtol10 ((b'0' + a) ∷ [])).0 ≡ pos a
unfolding strtol10 with_sign after_sign skip_spaces read_digits is_digit signed
one_digit a small = ground arith

two_digits :
    (a b : ℕ) → a < 10 → b < 10 → (strtol10 ((b'0' + a) ∷ (b'0' + b) ∷ [])).0 ≡ pos (a * 10 + b)
unfolding strtol10 with_sign after_sign skip_spaces read_digits is_digit signed
two_digits a b small small' = ground arith

three_of :
    (a b c : ℕ)
    → a < 10
    → b < 10
    → c < 10
    → (strtol10 ((b'0' + a) ∷ (b'0' + b) ∷ (b'0' + c) ∷ [])).0 ≡ pos (a * 100 + b * 10 + c)
unfolding strtol10 with_sign after_sign skip_spaces read_digits is_digit signed
three_of a b c small small' small'' = ground arith

-- `strtol` reads back what `itoa` printed.
strtol10-itoa : (n : ℕ) → n < 1000 → (strtol10 (itoa (pos n))).0 ≡ pos n
unfolding itoa three_digits
strtol10-itoa n small =
    ground
      (arith, one_digit n, two_digits (n / 10) (n % 10), three_of (n / 100) (n / 10 % 10) (n % 10))

itoa-length_pos : (n : ℕ) → n < 1000 → length (itoa (pos n)) < 4
unfolding itoa three_digits
itoa-length_pos n small = ground arith

-- The remainder of a negative number by 256 has at most two digits exactly where it is above -100.
itoa-length_negsuc :
    (k : ℕ) → ltb (length (itoa (rem_int (negsuc k) 256))) 4 ≡ ltb ((k + 1) % 256) 100
unfolding itoa three_digits rem_int
itoa-length_negsuc k = ground arith

-- From 0 on, the sequence number is taken modulo 256, stored in flash as that number, and set.
store_seq-pos :
    (k : ℕ) (n : Node)
    → store_seq (rem_int (pos k) 256) n
      ≡ some (record (call (nvs_set 7 (int32 (pos (k % 256)))) n) { seq = pos (k % 256) })
unfolding store_seq rem_int sys_set_nvs_var call stored_value var_type sys_find_var
store_seq-pos k n =
    rw (lt→ltb (length (itoa (pos (k % 256)))) 4 (itoa-length_pos (k % 256) (omega arith))) (
      ap (λ (v : ℤ). some (record (call (nvs_set 7 (int32 v)) n) { seq = pos (k % 256) }))
        (strtol10-itoa (k % 256) (omega arith)))

store_seq-negsuc :
    (k : ℕ) (n : Node) → (store_seq (rem_int (negsuc k) 256) n ≡ none) ↔ (100 ≤ (k + 1) % 256)
unfolding store_seq
store_seq-negsuc k n = rw (itoa-length_negsuc k) (ground arith)

-- The POST with a mode that leaves the node `n'` and a sequence number.
blink_configure-seq :
    (req : Request) (n n' : Node) (mode seq : List ℕ)
    → req.method ≡ http_post
    → param 129 req mode_key ≡ some mode
    → set_led_mode mode (touch n) ≡ some n'
    → param 129 req seq_key ≡ some seq
    → blink_configure_handler req n ≡ configure_seq mode seq n'
unfolding blink_configure_handler configure_after_mode
blink_configure-seq req n n' mode seq post p m s = rw post (rw p (rw m (rw s refl)))

whole_number :
    (mode seq : List ℕ) (n : Node)
    → length seq ≢ 0
    → length (strtol10 seq).1 ≡ 0
    → configure_seq mode seq n ≡ (
        store_seq (rem_int (strtol10 seq).0 256) n >>= λ (m : Node).
        some (reply 200 (("mode", text mode) ∷ ("seq", text seq) ∷ ("status", str "ok") ∷ []) m))
unfolding configure_seq respond reply
whole_number mode seq n given whole = rw (not_zero (length seq) given) (rw whole refl)

bind_none :
    {A : Type 0} {B : Type 0} (o : Option A) (f : A → B)
    → ((o >>= λ (a : A). some (f a)) ≡ none) ↔ (o ≡ none)
bind_none none f = (λ e. refl, λ e. refl)
bind_none (some a) f = (λ e. absurd cc, λ e. absurd cc)

iff_trans : {A B C : Type 0} → (A ↔ B) → (B ↔ C) → (A ↔ C)
iff_trans f g = (λ a. g.0 (f.0 a), λ c. f.1 (g.1 c))

-- A POST with a sequence number from 0 on, and a mode that is taken over or absent: the number is taken modulo 256,
-- `strtol` reads it back from the text that goes to flash, and it is set; the answer is 200.
blink_configure-seq_stored :
    (req : Request) (n n' : Node) (mode seq : List ℕ) (k : ℕ)
    → req.method ≡ http_post
    → param 129 req mode_key ≡ some mode
    → set_led_mode mode (touch n) ≡ some n'
    → param 129 req seq_key ≡ some seq
    → length seq ≢ 0
    → strtol10 seq ≡ (pos k, [])
    → blink_configure_handler req n
      ≡ some (
          reply 200
            (("mode", text mode) ∷ ("seq", text seq) ∷ ("status", str "ok") ∷ [])
            (record (call (nvs_set 7 (int32 (pos (k % 256)))) n') { seq = pos (k % 256) }))
blink_configure-seq_stored req n n' mode seq k post p m s given e =
    blink_configure-seq req n n' mode seq post p m s
    ∙ whole_number mode seq n' given (ap (λ (r : ℤ × List ℕ). length r.1) e)
    ∙ rw (ap (λ (r : ℤ × List ℕ). r.0) e) (rw (store_seq-pos k n') refl)

-- A POST with a negative sequence number writes past the 4 bytes of its buffer exactly where the remainder by 256 has
-- three digits.
blink_configure-seq_overflow :
    (req : Request) (n n' : Node) (mode seq : List ℕ) (k : ℕ)
    → req.method ≡ http_post
    → param 129 req mode_key ≡ some mode
    → set_led_mode mode (touch n) ≡ some n'
    → param 129 req seq_key ≡ some seq
    → length seq ≢ 0
    → strtol10 seq ≡ (negsuc k, [])
    → (blink_configure_handler req n ≡ none) ↔ (100 ≤ (k + 1) % 256)
blink_configure-seq_overflow req n n' mode seq k post p m s given e =
    rw
      (blink_configure-seq req n n' mode seq post p m s
        ∙ whole_number mode seq n' given (ap (λ (r : ℤ × List ℕ). length r.1) e)
        ∙ ap
            (λ (v : ℤ). store_seq (rem_int v 256) n' >>= λ (m : Node).
              some
                (reply 200 (("mode", text mode) ∷ ("seq", text seq) ∷ ("status", str "ok") ∷ []) m))
            (ap (λ (r : ℤ × List ℕ). r.0) e))
      (iff_trans
        (bind_none (store_seq (rem_int (negsuc k) 256) n')
          (reply 200 (("mode", text mode) ∷ ("seq", text seq) ∷ ("status", str "ok") ∷ [])))
        (store_seq-negsuc k n'))

-- A POST with the mode `manual` and a sequence number that something follows is refused with 400, and the LED is
-- manual from then on.
blink_configure-mode_kept :
    (req : Request) (n : Node) (seq : List ℕ)
    → req.method ≡ http_post
    → param 129 req mode_key ≡ some manual_text
    → param 129 req seq_key ≡ some seq
    → length seq ≢ 0
    → length (strtol10 seq).1 ≢ 0
    → blink_configure_handler req n
      ≡ some (
          reply 400
            (("mode", text manual_text)
              ∷ ("seq", text seq)
              ∷ ("status", str "invalid seq value")
              ∷ [])
            (set_sys_event led_status_changed (record (touch n) { led_manual = true })))
unfolding set_led_mode
blink_configure-mode_kept req n seq post p s given rest =
    blink_configure-seq req n
      (set_sys_event led_status_changed (record (touch n) { led_manual = true })) manual_text seq
      post p refl s
    ∙ configure_seq-rest manual_text seq _ given rest
