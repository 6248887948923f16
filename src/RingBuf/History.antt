-- ===== src/RingBuf/History.antt =====
-- A valid buffer against the list of all items pushed since the last reset, oldest first.
use rfmarkit_esp_node.Base.{
  ℕ, ◌+◌, ◌-◌, ◌*◌, ◌%◌, ◌≤◌, ◌<◌, ◌≡◌, ◌≢◌, sym, ap, ◌∙◌, arith, List, [], ◌∷◌, ◌++◌, length,
  write_at, read_at, length-append, get_or, get_or-append_left, get_or-append_last, mod-ne_of_near,
  rows_apart, read_at-write_at_self, read_at-write_at_apart,
}
use native.Mathlib.Decide.{dec_lt}
use rfmarkit_esp_node.RingBuf.{RingBuf}
use rfmarkit_esp_node.RingBuf.Inv.{IsValid, pushed, slot_in_range, push-IsValid}

-- the bytes of the slot where index i is kept
abbrev pub slot_bytes : RingBuf → ℕ → List ℕ
slot_bytes r i = read_at r.buf ((i % r.size) * r.item_width) r.item_width

-- Index i is not overwritten: i > head - size.
abbrev pub IsKept : RingBuf → ℕ → Type 0
IsKept r i = (1 ≤ i) × (i < r.head) × (r.head < i + r.size)

pub record Holds (r : RingBuf) (items : List (List ℕ)) : Type 0 where
  pub valid : IsValid r
  pub count : r.head ≡ length items + 1
  pub kept : (i : ℕ) → IsKept r i → slot_bytes r i ≡ get_or items (i - 1) []

-- A buffer in which nothing was pushed holds the empty history.
pub fresh-Holds : (r : RingBuf) → IsValid r → r.head ≡ 1 → Holds r []
fresh-Holds r v h = record { valid = v; count = h; kept = λ i k. absurd (omega arith) }

row_read_back :
    (buf item : List ℕ) (w s h : ℕ)
    → s ≡ h
    → length item ≡ w
    → h * w + w ≤ length buf
    → read_at (write_at buf (h * w) item) (s * w) w ≡ item
row_read_back buf item w s h e l room =
    rw (e, ← l) (read_at-write_at_self buf (h * length item) item (rw l room))

row_read_apart :
    (buf item : List ℕ) (w s h : ℕ)
    → s ≢ h
    → length item ≡ w
    → read_at (write_at buf (h * w) item) (s * w) w ≡ read_at buf (s * w) w
row_read_apart buf item w s h ne l =
    read_at-write_at_apart buf (h * w) item (s * w) w (rw l (rows_apart s h w ne))

slot_bytes-pushed_self :
    (r : RingBuf) (item : List ℕ)
    → IsValid r
    → length item ≡ r.item_width
    → slot_bytes (pushed r item) r.head ≡ item
slot_bytes-pushed_self r item v w =
    row_read_back r.buf item r.item_width (r.head % r.size) r._head (sym v.slot) w
      (slot_in_range r v)

slot_bytes-pushed_apart :
    (r : RingBuf) (item : List ℕ) (i : ℕ)
    → IsValid r
    → length item ≡ r.item_width
    → i < r.head
    → r.head < i + r.size
    → slot_bytes (pushed r item) i ≡ slot_bytes r i
slot_bytes-pushed_apart r item i v w before near =
    row_read_apart r.buf item r.item_width (i % r.size) r._head
      (λ e. mod-ne_of_near i r.head r.size before near (e ∙ v.slot)) w

pushed_kept :
    (r : RingBuf) (item : List ℕ) {items : List (List ℕ)}
    → Holds r items
    → length item ≡ r.item_width
    → (i : ℕ) → IsKept (pushed r item) i
    → slot_bytes (pushed r item) i ≡ get_or (items ++ (item ∷ [])) (i - 1) []
pushed_kept r item {items} h w i k = elim (dec_lt i r.head) [
  | yes before ↦
      slot_bytes-pushed_apart r item i h.valid w before (omega arith)
      ∙ h.kept i (omega arith)
      ∙ sym (get_or-append_left items (item ∷ []) (i - 1) [] (omega (arith, h.count)))
  | no after ↦
      let e : i ≡ r.head = omega arith in
      ap (slot_bytes (pushed r item)) e
      ∙ slot_bytes-pushed_self r item h.valid w
      ∙ sym (get_or-append_last items item [])
      ∙ ap (λ n. get_or (items ++ (item ∷ [])) n []) (omega (arith, h.count))
]

-- A push of an item of the buffer's width appends it to the history.
pub push-Holds :
    (r : RingBuf) (item : List ℕ) {items : List (List ℕ)}
    → Holds r items
    → length item ≡ r.item_width
    → Holds (pushed r item) (items ++ (item ∷ []))
push-Holds r item {items} h w = record {
  valid = push-IsValid r item h.valid;
  count = omega (arith, h.count, length-append {0} items (item ∷ []));
  kept = λ i k. pushed_kept r item h w i k;
}
