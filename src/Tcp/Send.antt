-- ===== src/Tcp/Send.antt =====
-- The macro `send_all` of lib/libtcp/tcp.h.
use rfmarkit_esp_node.Base.{
  ℕ, zero, suc, ◌+◌, ◌-◌, ◌≤◌, ◌≡◌, refl, sym, length-append, ap, ◌∙◌, arith, Bool, false, Option,
  none, some, List, [], ◌∷◌, ◌++◌, map, length, take, ◌==◌, if◌then◌else◌,
}
use rfmarkit_esp_node.Base.Outcome.{Outcome, done, out_of_fuel, ◌>>=◌}

-- The loop of `send_all`, with what each `send` returns, none where that is negative: the bytes that the stack took. Each
-- `send` is given `buf`.
unfoldable pub send_loop : List ℕ → (to_write : ℕ) → List (Option ℕ) → Outcome (List ℕ)
send_loop buf to_write [] = if to_write == 0 then done [] else out_of_fuel
send_loop buf to_write (none ∷ answers) = done []
send_loop buf to_write (some written ∷ answers) =
    let rest = send_loop buf (to_write - written) answers in
    if to_write == 0 then done [] else rest >>= λ sent. done (take written buf ++ sent)

-- `send_all`
unfoldable pub send_all : List ℕ → List (Option ℕ) → Outcome (List ℕ)
unfolding send_loop
send_all buf answers = send_loop buf (length buf) answers

unfoldable pub sum : List ℕ → ℕ
sum [] = 0
sum (w ∷ ws) = w + sum ws

-- The starts of the text of these lengths, one after another.
unfoldable pub starts : List ℕ → List ℕ → List ℕ
starts buf [] = []
starts buf (w ∷ ws) = take w buf ++ starts buf ws

abbrev pub AllPositive : List ℕ → Type 0
AllPositive [] = Unit {0}
AllPositive (w ∷ ws) = (1 ≤ w) × AllPositive ws

send_loop-starts :
    (buf ws : List ℕ) → AllPositive ws → send_loop buf (sum ws) (map some ws) ≡ done (starts buf ws)
unfolding send_loop sum starts
send_loop-starts buf [] h = refl
send_loop-starts buf (w ∷ ws) h =
    let more : (w + sum ws == 0) ≡ false = ground (arith, h.0) in
    let left : w + sum ws - w ≡ sum ws = omega arith in
    ap
      (λ (b : Bool).
        if b
        then done []
        else (send_loop buf (w + sum ws - w) (map some ws) >>= λ sent. done (take w buf ++ sent)))
      more
    ∙ ap (λ n. send_loop buf n (map some ws) >>= λ sent. done (take w buf ++ sent)) left
    ∙ ap (λ (o : Outcome (List ℕ)). o >>= λ sent. done (take w buf ++ sent))
        (send_loop-starts buf ws h.1)

length-take : (n : ℕ) (xs : List ℕ) → n ≤ length xs → length (take n xs) ≡ n
length-take zero xs h = refl
length-take (suc n) [] h = absurd (omega (arith, h))
length-take (suc n) (x ∷ xs) h = omega (arith, length-take n xs (omega (arith, h)))

length-starts : (buf ws : List ℕ) → sum ws ≤ length buf → length (starts buf ws) ≡ sum ws
unfolding sum starts
length-starts buf [] h = refl
length-starts buf (w ∷ ws) h = omega (
  arith,
  length-append (take w buf) (starts buf ws),
  length-take w buf (omega (arith, h)),
  length-starts buf ws (omega (arith, h)),
)

-- A stack that takes a text in parts gets as many bytes as the text has, but each part is the start of the text again.
pub send_all-starts :
    (buf ws : List ℕ)
    → AllPositive ws
    → sum ws ≡ length buf
    → (send_all buf (map some ws) ≡ done (starts buf ws)) × (length (starts buf ws) ≡ length buf)
unfolding send_all
send_all-starts buf ws h total = (
  ap (λ n. send_loop buf n (map some ws)) (sym total) ∙ send_loop-starts buf ws h,
  length-starts buf ws (omega (arith, total)) ∙ total,
)
