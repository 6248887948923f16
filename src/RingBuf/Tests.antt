-- ===== src/RingBuf/Tests.antt =====
-- The theorems on lib/ring_buf/ring_buf.c at concrete buffers.
use Prim.{tt}
use rfmarkit_esp_node.Base.{ℕ, ◌≡◌, refl, arith, true, false, Option, none, some, List, [], ◌∷◌}
use rfmarkit_esp_node.Base.Int.{pos}
use rfmarkit_esp_node.Esp.{ok}
use rfmarkit_esp_node.RingBuf.{RingBuf, init, peek}
use rfmarkit_esp_node.RingBuf.Inv.{IsValid, fresh, init-IsValid}
use rfmarkit_esp_node.RingBuf.History.{Holds, fresh-Holds}
use rfmarkit_esp_node.RingBuf.Peek.{push_all, push_all-Holds, init-push-peek}

abbrev no_memory : ℕ → Option (List ℕ)
no_memory n = none

abbrev zeroed : RingBuf
zeroed = record {
  size = 0;
  item_width = 0;
  buf = [];
  static_buf = false;
  _head = 0;
  head = 0;
  mutex = false;
}

abbrev storage : List ℕ
storage = 0 ∷ 0 ∷ 0 ∷ 0 ∷ 0 ∷ 0 ∷ []

-- three items of two bytes
abbrev small : RingBuf
small = fresh zeroed 3 2 storage false

abbrev items : List (List ℕ)
items = (1 ∷ 2 ∷ []) ∷ (3 ∷ 4 ∷ []) ∷ (5 ∷ 6 ∷ []) ∷ (7 ∷ 8 ∷ []) ∷ []

small-IsValid : IsValid small
small-IsValid =
    (init-IsValid no_memory false zeroed 3 2 storage (omega arith) (omega arith) (omega arith)).1

small-Holds : Holds small []
small-Holds = fresh-Holds small small-IsValid refl

push_all-Holds_example :
    (r' : RingBuf) × (push_all small items ≡ some r') × Holds r' items × (r'.size ≡ 3)
push_all-Holds_example =
    push_all-Holds small items small-Holds (refl, (refl, (refl, (refl, tt)))) (omega arith)

-- The fourth item is the last, so the third is still there.
init-push-peek_example :
    (r₁ r₂ : RingBuf) × (init no_memory false (some zeroed) 3 2 (some storage) true ≡ (ok, some r₁))
    × (push_all r₁ items ≡ some r₂)
    × (peek (some r₂) true (pos 3) ≡ some (ok, some (5 ∷ 6 ∷ [], pos 3)))
init-push-peek_example =
    init-push-peek no_memory false zeroed 3 2 storage items 3 (omega arith) (omega arith)
      (omega arith) (refl, (refl, (refl, (refl, tt)))) (omega arith) (omega arith) (omega arith)
      (omega arith)
