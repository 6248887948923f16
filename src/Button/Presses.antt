-- ===== src/Button/Presses.antt =====
-- Presses of the button of components/sys/button.c, up to the queue of the events.
use rfmarkit_esp_node.Base.{
  ℕ, zero, suc, ◌+◌, ◌-◌, ◌%◌, ◌^◌, ◌<◌, ◌≤◌, ◌≡◌, ◌∙◌, refl, sym, ap, arith, Bool, true, false,
  List, [], ◌∷◌, ◌++◌, length, take, length-append, ltb, if◌then◌else◌, append_assoc, append-nil,
}
use mathlib.Core.Path.{transport}
use rfmarkit_esp_node.Button.{
  Button, ButtonEvent, idle, click, long_press, edge, settle, enqueue, event_of,
  button_fn_isr_handler,
}

-- A press at a time, and how long it is held, in ticks.
pub record Press : Type 0 where
  pub start : ℕ
  pub held : ℕ

-- The edges of a press, at the tick counts of 32 bits.
unfoldable pub press : ℕ → Press → Button → Button
press long_press_duration p b =
    button_fn_isr_handler long_press_duration ((p.start + p.held) % 2 ^ 32)
      (button_fn_isr_handler long_press_duration (p.start % 2 ^ 32) b)

unfoldable pub press_all : ℕ → List Press → Button → Button
unfolding press
press_all long_press_duration [] b = b
press_all long_press_duration (p ∷ ps) b =
    press_all long_press_duration ps (press long_press_duration p b)

-- What a press means.
unfoldable pub meaning : ℕ → Press → ButtonEvent
meaning long_press_duration p = if ltb long_press_duration p.held then long_press else click

unfoldable pub meanings : ℕ → List Press → List ButtonEvent
unfolding meaning
meanings long_press_duration [] = []
meanings long_press_duration (p ∷ ps) =
    meaning long_press_duration p ∷ meanings long_press_duration ps

abbrev pub AllShort : List Press → Type 0
AllShort [] = Unit {0}
AllShort (p ∷ ps) = (p.held < 2 ^ 32) × AllShort ps

pub record Idle (b : Button) (events : List ButtonEvent) : Type 0 where
  pub at_rest : b.button_state ≡ idle
  pub queued : b.has_queue ≡ true
  pub waiting : b.queue ≡ events

held-wraps :
    (start held : ℕ)
    → held < 2 ^ 32
    → ((start + held) % 2 ^ 32 + 2 ^ 32 - start % 2 ^ 32) % 2 ^ 32 ≡ held
held-wraps start held h = omega (arith, h)

press-Idle :
    (long_press_duration : ℕ) (p : Press) (b : Button) (events : List ButtonEvent)
    → p.held < 2 ^ 32
    → Idle b events
    → Idle (press long_press_duration p b) (enqueue events (meaning long_press_duration p))
unfolding press meaning button_fn_isr_handler edge settle event_of
press-Idle long_press_duration p b events short h =
    transport
      (λ i.
        Idle (press long_press_duration p (sym same i))
          (enqueue events (meaning long_press_duration p)))
      (record {
        at_rest = refl;
        queued = refl;
        waiting = λ i. enqueue (h.waiting i) (
            if ltb long_press_duration (held-wraps p.start p.held short i)
            then long_press
            else click);
      })
  where
    same : b ≡ record b { button_state = idle; has_queue = true }
    same = λ i. record b { button_state = h.at_rest i; has_queue = h.queued i }

take-all : {A : Type 0} (n : ℕ) (xs : List A) → length xs ≤ n → take n xs ≡ xs
take-all zero [] h = refl
take-all zero (x ∷ xs) h = absurd (omega arith)
take-all (suc n) [] h = refl
take-all (suc n) (x ∷ xs) h = ap (λ ys. x ∷ ys) (take-all n xs (omega arith))

take-full : {A : Type 0} (n : ℕ) (xs ys : List A) → length xs ≡ n → take n (xs ++ ys) ≡ xs
take-full zero [] ys h = refl
take-full zero (x ∷ xs) ys h = absurd (omega arith)
take-full (suc n) [] ys h = absurd (omega arith)
take-full (suc n) (x ∷ xs) ys h = ap (λ zs. x ∷ zs) (take-full n xs ys (omega arith))

-- A queue takes the events that fit.
enqueue-take :
    (room : Bool) (queue : List ButtonEvent) (ev : ButtonEvent) (evs : List ButtonEvent)
    → ltb (length queue) 10 ≡ room
    → length queue ≤ 10
    → let q = if room then queue ++ (ev ∷ []) else queue in
      (length q ≤ 10) × (take 10 (q ++ evs) ≡ take 10 (queue ++ ev ∷ evs))
enqueue-take true queue ev evs e small = (
  ground (arith, e, length-append {0} queue (ev ∷ [])),
  ap (take 10) (append_assoc queue (ev ∷ []) evs),
)
enqueue-take false queue ev evs e small =
    let full : length queue ≡ 10 = ground (arith, e, small) in
    (small, take-full 10 queue evs full ∙ sym (take-full 10 queue (ev ∷ evs) full))

-- From a button at rest, with at most 10 events in its queue, any presses, each held for less than 2^32 ticks, while the
-- daemon takes nothing: each makes one event, a long press if it was held for longer than the limit and a click
-- otherwise, the first of these events that fit into the 10 entries are in the queue behind those that were there, in their
-- order, the others are dropped, and the button is at rest again.
pub press_all-meanings :
    (long_press_duration : ℕ) (ps : List Press) (b : Button) (events : List ButtonEvent)
    → AllShort ps
    → length events ≤ 10
    → Idle b events
    → Idle
        (press_all long_press_duration ps b)
        (take 10 (events ++ meanings long_press_duration ps))
unfolding press_all meanings enqueue
press_all-meanings long_press_duration [] b events short small h =
    rw (append-nil, take-all 10 events small) h
press_all-meanings long_press_duration (p ∷ ps) b events short small h =
    let ev = meaning long_press_duration p in
    let (small', same) =
      enqueue-take (ltb (length events) 10) events ev (meanings long_press_duration ps) refl
        small in
    transport
      (λ i. Idle (press_all long_press_duration ps (press long_press_duration p b)) (same i))
      (press_all-meanings long_press_duration ps (press long_press_duration p b) (enqueue events ev)
        short.1 small' (press-Idle long_press_duration p b events short.0 h))
