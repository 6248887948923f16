-- ===== src/Button/Tests.antt =====
-- The theorem on components/sys/button.c at a concrete sequence of presses.
use Prim.{tt}
use rfmarkit_esp_node.Base.{◌-◌, ◌^◌, refl, arith, true, List, [], ◌∷◌, ◌++◌, replicate, take}
use rfmarkit_esp_node.Button.{Button, idle, click}
use rfmarkit_esp_node.Button.Presses.{Press, Idle, press_all, meanings, press_all-meanings}

-- a button with room for one event in its queue
abbrev at_rest : Button
at_rest = record {
  button_state = idle;
  press_timestamp = 0;
  release_timestamp = 0;
  has_queue = true;
  queue = replicate 9 click;
}

-- a long press over the wrap of the tick count, and a short one, which is dropped
abbrev presses : List Press
presses = record { start = 2 ^ 32 - 5; held = 400 } ∷ record { start = 1000; held = 3 } ∷ []

press_all-meanings_example :
    Idle (press_all 200 presses at_rest) (take 10 (replicate 9 click ++ meanings 200 presses))
press_all-meanings_example =
    press_all-meanings 200 presses at_rest (replicate 9 click) (omega arith, (omega arith, tt))
      (omega arith) (record { at_rest = refl; queued = refl; waiting = refl })
