-- ===== src/RingBuf/Inv.antt =====
-- The representation invariant of `ring_buf_t` of lib/ring_buf.
use rfmarkit_esp_node.Base.{
  ℕ, ◌+◌, ◌-◌, ◌*◌, ◌%◌, ◌^◌, ◌≤◌, ◌<◌, ◌≡◌, arith, true, some, List, length, Option, Bool,
  write_at, length-write_at, row_in_range, mod-suc, one-mod, sym,
}
use rfmarkit_esp_node.Esp.{ok}
use rfmarkit_esp_node.RingBuf.{RingBuf, init, reset, push, store}

pub record IsValid (r : RingBuf) : Type 0 where
  pub several : 2 ≤ r.size
  pub storage : r.size * r.item_width ≤ length r.buf
  pub slot : r._head ≡ r.head % r.size
  pub started : 1 ≤ r.head

-- The buffer as `init` leaves it, on a storage of the caller.
abbrev pub fresh : RingBuf → ℕ → ℕ → List ℕ → Bool → RingBuf
fresh r size item_width buf mutex = record r {
  size = size;
  item_width = item_width;
  buf = buf;
  static_buf = true;
  _head = 1;
  head = 1;
  mutex = mutex;
}

-- `ring_buf_init` on a static storage that holds `size` items, for two items or more and a width
-- that is not 0, succeeds with a valid buffer in which nothing was pushed.
pub init-IsValid :
    (malloc : ℕ → Option (List ℕ)) (mutex : Bool) (r : RingBuf) (size item_width : ℕ) (buf : List ℕ)
    → 2 ≤ size
    → 1 ≤ item_width
    → size * item_width ≤ length buf
    → (init malloc mutex (some r) size item_width (some buf) true
        ≡ (ok, some (fresh r size item_width buf mutex)))
      × IsValid (fresh r size item_width buf mutex)
unfolding init
init-IsValid malloc mutex r size item_width buf several wide room = (
  ground arith,
  record {
    several = several;
    storage = room;
    slot = sym (one-mod size several);
    started = omega arith;
  },
)

pub reset-IsValid : (r : RingBuf) → IsValid r → IsValid (reset r).1
unfolding reset
reset-IsValid r v = record {
  several = v.several;
  storage = v.storage;
  slot = sym (one-mod r.size v.several);
  started = omega arith;
}

-- The state after a push.
abbrev pub pushed : RingBuf → List ℕ → RingBuf
pushed r item = record r {
  buf = write_at r.buf (r._head * r.item_width) item;
  _head = (r._head + 1) % r.size;
  head = r.head + 1;
}

pub slot_in_range : (r : RingBuf) → IsValid r → r._head * r.item_width + r.item_width ≤ length r.buf
slot_in_range r v = omega (arith, v, row_in_range r._head r.size r.item_width (omega arith))

-- A push on a valid buffer whose counter can still grow is defined and succeeds.
pub push-defined :
    (r : RingBuf) (item : List ℕ)
    → IsValid r
    → r.head < 2 ^ 63 - 1
    → push (some r) (some item) ≡ some (ok, some (pushed r item))
unfolding push store
push-defined r item v small = ground (arith, slot_in_range r v)

pub push-IsValid : (r : RingBuf) (item : List ℕ) → IsValid r → IsValid (pushed r item)
push-IsValid r item v =
    ground (arith, length-write_at r.buf (r._head * r.item_width) item, mod-suc r.head r.size)
