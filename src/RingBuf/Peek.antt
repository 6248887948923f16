-- ===== src/RingBuf/Peek.antt =====
-- What `ring_buf_peek` returns, on every class of indices, and what a client that pushes reads back.
use rfmarkit_esp_node.Base.{
  ℕ, ◌+◌, ◌-◌, ◌*◌, ◌%◌, ◌^◌, ◌≤◌, ◌<◌, ◌≡◌, refl, ap, ◌∙◌, arith, Bool, true, false, ◌||◌, some,
  none, List, [], ◌∷◌, ◌++◌, length, Option, get_or, row_in_range, append_assoc, append-nil,
  mod-lt_pos,
}
use rfmarkit_esp_node.Base.Int.{ℤ, pos, negsuc, sub_ℕ, leb_ℤ, ltb_ℤ}
use rfmarkit_esp_node.Esp.{ok, invalid_arg}
use rfmarkit_esp_node.RingBuf.{RingBuf, init, push, store, peek, load, clamp_index}
use rfmarkit_esp_node.RingBuf.Inv.{IsValid, pushed, push-defined, fresh, init-IsValid}
use rfmarkit_esp_node.RingBuf.History.{Holds, IsKept, slot_bytes, push-Holds, fresh-Holds}

-- The read of a peek is in range.
load-defined :
    (r : RingBuf) (i : ℕ) → IsValid r → load r (pos i) ≡ some (ok, some (slot_bytes r i, pos i))
unfolding load
load-defined r i v =
    ground (arith, mod-lt_pos i r.size, row_in_range (i % r.size) r.size r.item_width)

-- On a buffer that holds a history, index i is answered by the i-th item pushed, as long as it is
-- not overwritten, and i is reported as the index read.
pub peek-kept :
    (r : RingBuf) {items : List (List ℕ)} (i : ℕ)
    → Holds r items
    → IsKept r i
    → peek (some r) true (pos i) ≡ some (ok, some (get_or items (i - 1) [], pos i))
unfolding peek clamp_index
peek-kept r i h k = ground (arith, load-defined r i h.valid, h.kept i k)

-- An index that is negative or overwritten, but not past the end.
abbrev pub IsStale : RingBuf → ℤ → Type 0
IsStale r index = (ltb_ℤ index (pos 0) || leb_ℤ index (sub_ℕ r.head r.size)) ≡ true

stale_behind :
    (r : RingBuf) (index : ℤ) → IsValid r → IsStale r index → leb_ℤ (pos r.head) index ≡ false
stale_behind r (pos i) v h = ground arith
stale_behind r (negsuc n) v h = ground arith

clamp_index-stale :
    (r : RingBuf) (index : ℤ) → IsStale r index → clamp_index r index ≡ sub_ℕ r.head 1
unfolding clamp_index
clamp_index-stale r index h = rw h

pred_head : (head n : ℕ) → head ≡ n + 1 → sub_ℕ head 1 ≡ pos n
pred_head head n h = ground arith

-- A negative or overwritten index is answered by the item pushed last.
pub peek-stale :
    (r : RingBuf) {items : List (List ℕ)} (index : ℤ)
    → Holds r items
    → 1 ≤ length items
    → IsStale r index
    → peek (some r) true index
      ≡ some (ok, some (get_or items (length items - 1) [], pos (length items)))
unfolding peek
peek-stale r {items} index h some_item stale =
    rw
      (
        stale_behind r index h.valid stale,
        clamp_index-stale r index stale,
        pred_head r.head (length items) h.count,
      )
      (load-defined r (length items) h.valid
        ∙ ap (λ (b : List ℕ). some (ok, some (b, pos (length items))))
            (h.kept (length items) (omega (arith, h.count))))

-- An index at or past the write position is refused.
pub peek-ahead :
    (r : RingBuf) (index : ℤ)
    → leb_ℤ (pos r.head) index ≡ true
    → peek (some r) true index ≡ some (invalid_arg, none)
unfolding peek
peek-ahead r index h = rw h

-- The pushes of a client in order; `none` if one of them fails or is undefined.
pub push_all : RingBuf → List (List ℕ) → Option RingBuf
push_all r [] = some r
push_all r (x ∷ xs) = elim (push (some r) (some x)) [
  | some (ok, some r') ↦ push_all r' xs
  | _ ↦ none
]

abbrev pub AllOfWidth : ℕ → List (List ℕ) → Type 0
AllOfWidth w [] = Unit {0}
AllOfWidth w (x ∷ xs) = (length x ≡ w) × AllOfWidth w xs

push_all-cons :
    (r : RingBuf) (x : List ℕ) (xs : List (List ℕ)) {r' : RingBuf}
    → push (some r) (some x) ≡ some (ok, some r')
    → push_all r (x ∷ xs) ≡ push_all r' xs
unfolding push_all
push_all-cons r x xs h = rw (h, push_all)

-- Any sequence of items of the buffer's width can be pushed while the counter does not overflow,
-- and the buffer then holds its former history followed by that sequence.
pub push_all-Holds :
    (r : RingBuf) (xs : List (List ℕ)) {items : List (List ℕ)}
    → Holds r items
    → AllOfWidth r.item_width xs
    → r.head + length xs < 2 ^ 63
    → (r' : RingBuf) × (push_all r xs ≡ some r') × Holds r' (items ++ xs) × (r'.size ≡ r.size)
unfolding push_all
push_all-Holds r [] {items} h w small = (r, refl, rw append-nil h, refl)
push_all-Holds r (x ∷ xs) {items} h (wx, w) small =
    let (r', done, holds, size) =
      push_all-Holds (pushed r x) xs (push-Holds r x h wx) w (omega arith) in
    (
      r',
      push_all-cons r x xs (push-defined r x h.valid (omega arith)) ∙ done,
      rw (append_assoc items (x ∷ []) xs) at holds,
      size,
    )

-- From initialisation on a static storage that is large enough, with a size of at least 2 and a width of at least 1:
-- after any sequence of items of the width (fewer than 2^63 - 1), the i-th of them is read back at index i, unless
-- `size - 1` or more items followed it.
pub init-push-peek :
    (malloc : ℕ → Option (List ℕ)) (mutex : Bool) (r : RingBuf) (size item_width : ℕ) (buf : List ℕ)
    (xs : List (List ℕ)) (i : ℕ)
    → 2 ≤ size
    → 1 ≤ item_width
    → size * item_width ≤ length buf
    → AllOfWidth item_width xs
    → length xs + 1 < 2 ^ 63
    → 1 ≤ i
    → i ≤ length xs
    → length xs + 1 < i + size
    → (r₁ r₂ : RingBuf) × (init malloc mutex (some r) size item_width (some buf) true
        ≡ (ok, some r₁))
      × (push_all r₁ xs ≡ some r₂)
      × (peek (some r₂) true (pos i) ≡ some (ok, some (get_or xs (i - 1) [], pos i)))
init-push-peek malloc mutex r size w buf xs i several wide room widths small first last near =
    let (made, valid) = init-IsValid malloc mutex r size w buf several wide room in
    let r₁ : RingBuf = fresh r size w buf mutex in
    let (r₂, done, holds, same) =
      push_all-Holds r₁ xs (fresh-Holds r₁ valid refl) widths (omega arith) in
    (r₁, r₂, made, done, peek-kept r₂ i holds (omega (arith, holds.count, same)))

-- A buffer in which nothing was pushed answers a negative index with ESP_OK and the bytes of slot 0,
-- which no push has written.
peek-unwritten :
    (r : RingBuf) (n : ℕ)
    → IsValid r
    → r.head ≡ 1
    → peek (some r) true (negsuc n) ≡ some (ok, some (slot_bytes r 0, pos 0))
unfolding peek clamp_index
peek-unwritten r n v h = ground (arith, load-defined r 0 v, pred_head r.head 0 h)

-- A buffer of one item, on a storage of exactly that item, is accepted, and its first push writes
-- out of the storage.
push-undefined_of_one :
    (malloc : ℕ → Option (List ℕ)) (mutex : Bool) (r : RingBuf) (item_width : ℕ) (buf item : List ℕ)
    → 1 ≤ item_width
    → length buf ≡ item_width
    → (r₁ : RingBuf) × (init malloc mutex (some r) 1 item_width (some buf) true ≡ (ok, some r₁))
      × (push (some r₁) (some item) ≡ none)
unfolding init push store
push-undefined_of_one malloc mutex r w buf item wide exact =
    (fresh r 1 w buf mutex, ground arith, ground arith)
