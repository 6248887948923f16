-- ===== src/Power/Nights.antt =====
-- A node in deep sleep: the boots of main/app_main.c by the timer, one after another, and the one by the button.
use rfmarkit_esp_node.Base.{ℕ, ◌+◌, ◌≡◌, Bool, true, false, ◌||◌, List, [], ◌∷◌}
use rfmarkit_esp_node.Base.Outcome.{Outcome, done, undefined, ◌>>=◌}
use rfmarkit_esp_node.Power.{
  PowerState, power_deep_sleep, power_waken, Power, Env, Board, power_mgmt_init,
}
use rfmarkit_esp_node.Power.Boot.{timer, Booted, running, asleep, restarted, app_main}

-- Some read succeeds.
unfoldable pub some_read : List Bool → Bool
some_read [] = false
some_read (r ∷ rs) = r || some_read rs

abbrev pub AllRead : List (List Bool) → Type 0
AllRead [] = Unit {0}
AllRead (rs ∷ rss) = (some_read rs ≡ true) × AllRead rss

-- A boot that ends in sleep.
unfoldable pub slept : Outcome Booted → Outcome Power
slept o = o >>= λ b. elim b [ running p ↦ undefined | asleep p ↦ done p | restarted p ↦ undefined ]

-- Boots by the timer, one after another, each with what its reads of the sensor return.
unfoldable pub nights : Board → Env → List (List Bool) → Power → Outcome Power
unfolding app_main slept
nights board env [] p = done p
nights board env (reads ∷ rest) p =
    slept (app_main board env timer reads p) >>= λ q. nights board env rest q

-- Asleep, with what a sleep keeps.
record IsAsleep (p q : Power) (n : ℕ) : Type 0 where
  initialized : q.initialized ≡ true
  state : q.state ≡ power_deep_sleep
  mode : q.mode ≡ p.mode
  boot_count : q.boot_count ≡ p.boot_count + n

abbrev pair : PowerState → Power → Outcome (PowerState × Power)
pair s q = done (s, q)

module _ (board : Board) (env : Env) where
  -- `power_mgmt_init` after a sleep
  woken : Power → Power
  unfolding power_mgmt_init
  woken p = (power_mgmt_init board (record p { power_save_timer = false; calls = [] })).1

  record IsWoken (p q : Power) : Type 0 where
    initialized : q.initialized ≡ true
    state : q.state ≡ power_waken
    mode : q.mode ≡ p.mode
    boot_count : q.boot_count ≡ p.boot_count + 1
