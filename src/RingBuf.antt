-- ===== src/RingBuf.antt =====
-- The ring buffer of IMU datagrams (lib/ring_buf/ring_buf.c). A pointer argument is an `Option`,
-- NULL being `none`. A call that accesses memory out of range, divides by zero or overflows an
-- `int64_t` is undefined in C: its result here is `none`.
pub mod Inv
pub mod History
pub mod Peek
mod Tests
use rfmarkit_esp_node.Base.{
  ℕ, ◌+◌, ◌-◌, ◌*◌, ◌%◌, ◌^◌, Bool, true, false, not, ◌||◌, Option, none, some, List, leb, ltb,
  ◌==◌, if◌then◌else◌, length, write_at, read_at,
}
use rfmarkit_esp_node.Base.Int.{ℤ, pos, negsuc, sub_ℕ, leb_ℤ, ltb_ℤ}
use rfmarkit_esp_node.Esp.{EspErr, ok, fail, no_mem, invalid_arg}

-- `ring_buf_t`; `buf` is the array that the pointer leads to, `mutex` whether a mutex was created.
pub record RingBuf : Type 0 where
  pub size : ℕ  -- uint16_t
  pub item_width : ℕ  -- uint16_t
  pub buf : List ℕ
  pub static_buf : Bool
  pub _head : ℕ  -- uint16_t
  pub head : ℕ  -- int64_t, never negative
  pub mutex : Bool

-- `malloc` and `xSemaphoreCreateMutex` are ESP-IDF's: what they return is an argument.
module _ (malloc : ℕ → Option (List ℕ)) (xSemaphoreCreateMutex : Bool) where
  init_mutex : RingBuf → Bool → EspErr × Option RingBuf
  init_mutex r static_buf =
      (ok, some (record r { static_buf = static_buf; mutex = xSemaphoreCreateMutex }))

  init_alloc : RingBuf → Option (List ℕ) → EspErr × Option RingBuf
  unfolding init_mutex
  init_alloc r none = (no_mem, some r)
  init_alloc r (some m) = init_mutex (record r { buf = m }) false

  -- the allocation of the storage: a static buffer must be given, any other must not
  init_storage : RingBuf → Option (List ℕ) → Bool → EspErr × Option RingBuf
  unfolding init_mutex init_alloc
  init_storage r none true = (invalid_arg, some r)
  init_storage r none false = init_alloc r (malloc (r.size * r.item_width))
  init_storage r (some b) true = init_mutex (record r { buf = b }) true
  init_storage r (some b) false = (invalid_arg, some r)

  -- `ring_buf_init`
  unfoldable pub init : Option RingBuf → ℕ → ℕ → Option (List ℕ) → Bool → EspErr × Option RingBuf
  unfolding init_storage
  init none size item_width buf static_buf = (invalid_arg, none)
  init (some r) size item_width buf static_buf =
      if (size == 0) || (item_width == 0)
      then (invalid_arg, some r)
      else init_storage (record r { size = size; item_width = item_width; head = 1; _head = 1 }) buf
          static_buf

-- `ring_buf_reset`
unfoldable pub reset : RingBuf → EspErr × RingBuf
reset r = (ok, record r { head = 1; _head = 1 })

-- The `memcpy` of a push, and the two counters after it.
unfoldable pub store : RingBuf → List ℕ → Option (EspErr × Option RingBuf)
store r item =
    let ofs = r._head * r.item_width in
    if (r.size == 0) || (ltb (length r.buf) (ofs + r.item_width) || leb (2 ^ 63 - 1) r.head)
    then none
    else some (
      ok,
      some (record r {
        buf = write_at r.buf ofs item;
        _head = (r._head + 1) % r.size;
        head = r.head + 1;
      }),
    )

-- `ring_buf_push`; `item` holds the `item_width` bytes that the pointer leads to.
unfoldable pub push : Option RingBuf → Option (List ℕ) → Option (EspErr × Option RingBuf)
push none item = some (invalid_arg, none)
push (some r) none = some (invalid_arg, some r)
push (some r) (some item) = store r item

-- `ring_buf_push_safe` and `ring_buf_reset_safe`: `taken` is what `xSemaphoreTake` returns.
unfoldable pub push_safe : Bool → RingBuf → Option (List ℕ) → Option (EspErr × Option RingBuf)
push_safe taken r item = if taken then push (some r) item else some (fail, some r)

unfoldable pub reset_safe : Bool → RingBuf → EspErr × RingBuf
reset_safe taken r = if taken then reset r else (fail, r)

-- the index that a peek reads: one that is negative or was overwritten becomes the newest
unfoldable pub clamp_index : RingBuf → ℤ → ℤ
clamp_index r index =
    if ltb_ℤ index (pos 0) || leb_ℤ index (sub_ℕ r.head r.size) then sub_ℕ r.head 1 else index

-- The `memcpy` of a peek at an index; a negative place lies before the storage.
unfoldable pub load : RingBuf → ℤ → Option (EspErr × Option (List ℕ × ℤ))
load r (negsuc n) = none
load r (pos i) =
    let ofs = (i % r.size) * r.item_width in
    if (r.size == 0) || ltb (length r.buf) (ofs + r.item_width)
    then none
    else some (ok, some (read_at r.buf ofs r.item_width, pos i))

-- `ring_buf_peek`: the item copied out and the index read. `out` says that `item` is not NULL.
unfoldable pub peek : Option RingBuf → Bool → ℤ → Option (EspErr × Option (List ℕ × ℤ))
peek none out index = some (invalid_arg, none)
peek (some r) false index = some (invalid_arg, none)
peek (some r) true index =
    if leb_ℤ (pos r.head) index then some (invalid_arg, none) else load r (clamp_index r index)

-- `ring_buf_free`: the status, and whether `free` is called on the storage.
unfoldable pub free : Option RingBuf → EspErr × Bool
free none = (invalid_arg, false)
free (some r) = (ok, not r.static_buf)
