-- ===== src/Hi229/Input/Steps.antt =====
-- `ch_serial_input` on one byte inside a frame: it waits, reads the length, or decodes the frame.
use rfmarkit_esp_node.Base.{
  ℕ, ◌+◌, ◌≤◌, ◌<◌, ◌≡◌, ◌≢◌, refl, ap, ◌∙◌, arith, Bool, some, List, [], ◌∷◌, length, set, get_or,
  get_or-set_self, get_or-set_ne, length-set, write_at,
}
use rfmarkit_esp_node.Base.Outcome.{done}
use rfmarkit_esp_node.Hi229.Raw.{FloatOps, Raw, u2}
use rfmarkit_esp_node.Hi229.Input.{
  Status, no_message, sync_ch, decode_ch, complete, header, store_byte, ch_serial_input, feed,
}

-- the buffer after `sync_ch`
abbrev pub synced : List ℕ → ℕ → List ℕ
synced buf x = set (set buf 0 (get_or buf 1 0)) 1 x

pub length-synced : (buf : List ℕ) (x : ℕ) → length (synced buf x) ≡ length buf
length-synced buf x =
    length-set (set buf 0 (get_or buf 1 0)) 1 x ∙ length-set buf 0 (get_or buf 1 0)

pub synced_first :
    (buf : List ℕ) (x : ℕ) → length buf ≡ 512 → get_or (synced buf x) 0 0 ≡ get_or buf 1 0
synced_first buf x h =
    get_or-set_ne (set buf 0 (get_or buf 1 0)) 1 0 x 0 (omega arith)
    ∙ get_or-set_self buf 0 (get_or buf 1 0) 0 (omega arith)

pub synced_second : (buf : List ℕ) (x : ℕ) → length buf ≡ 512 → get_or (synced buf x) 1 0 ≡ x
synced_second buf x h =
    get_or-set_self (set buf 0 (get_or buf 1 0)) 1 x 0
      (omega (arith, length-set buf 0 (get_or buf 1 0)))

-- no message for each byte, and a last status
abbrev pub ends_with : List ℕ → Status → List Status
ends_with [] s = s ∷ []
ends_with (x ∷ xs) s = no_message ∷ ends_with xs s

module _ {F : Type 0} (fl : FloatOps F) (c : Bool) where
  -- the state after a byte was stored
  abbrev pub stored : Raw F → ℕ → Raw F
  stored raw x = record raw { buf = set raw.buf raw.nbyte x; nbyte = raw.nbyte + 1 }

  pub input-waits :
      (raw : Raw F) (x : ℕ)
      → 1 ≤ raw.nbyte
      → raw.nbyte < length raw.buf
      → raw.nbyte ≢ 5
      → raw.nbyte + 1 < raw.len + 6
      → ch_serial_input fl raw x c ≡ done (no_message, stored raw x)
  unfolding ch_serial_input store_byte complete
  input-waits raw x started room not_header more = ground arith

  pub input-last :
      (raw : Raw F) (x : ℕ)
      → 6 ≤ raw.nbyte
      → raw.nbyte < length raw.buf
      → raw.nbyte + 1 ≡ raw.len + 6
      → ch_serial_input fl raw x c
        ≡ decode_ch fl (record raw { buf = set raw.buf raw.nbyte x; nbyte = 0 }) c
  unfolding ch_serial_input store_byte complete
  input-last raw x started room whole = ground arith

  pub input-header :
      (raw : Raw F) (x len : ℕ)
      → raw.nbyte ≡ 5
      → length raw.buf ≡ 512
      → u2 (set raw.buf raw.nbyte x) 2 ≡ some len
      → len ≤ 506
      → ch_serial_input fl raw x c ≡ complete fl (record (stored raw x) { len = len }) c
  unfolding ch_serial_input store_byte header
  input-header raw x len five size found short = ground arith

  pub feed-cons :
      (raw raw' raw'' : Raw F) (x : ℕ) (xs : List ℕ) (s : Status) (ss : List Status)
      → ch_serial_input fl raw x c ≡ done (s, raw')
      → feed fl raw' xs c ≡ done (ss, raw'')
      → feed fl raw (x ∷ xs) c ≡ done (s ∷ ss, raw'')
  unfolding feed
  feed-cons raw raw' raw'' x xs s ss first rest = ground arith

  feed-nil : (raw : Raw F) → feed fl raw [] c ≡ done ([], raw)
  unfolding feed
  feed-nil raw = refl

  -- The sync bytes, from an idle parser: the buffer after them, and what follows.
  pub sync-found :
      (raw : Raw F)
      → raw.nbyte ≡ 0
      → length raw.buf ≡ 512
      → (buf : List ℕ) × (length buf ≡ 512)
        × (get_or buf 0 0 ≡ 0x5a)
        × (get_or buf 1 0 ≡ 0xa5)
        × ((xs : List ℕ) (ss : List Status) (raw'' : Raw F)
            → feed fl (record raw { buf = buf; nbyte = 2 }) xs c ≡ done (ss, raw'')
            → feed fl raw (0x5a ∷ 0xa5 ∷ xs) c ≡ done (no_message ∷ no_message ∷ ss, raw''))
  unfolding ch_serial_input sync_ch
  sync-found raw idle size = (
    b₂,
    length-synced b₁ 0xa5 ∙ size₁,
    synced_first b₁ 0xa5 size₁ ∙ synced_second raw.buf 0x5a size,
    synced_second b₁ 0xa5 size₁,
    λ xs ss raw'' rest.
        feed-cons raw (record raw { buf = b₁ }) raw'' 0x5a (0xa5 ∷ xs) no_message (no_message ∷ ss)
          (ground (arith, synced_second raw.buf 0x5a size))
          (feed-cons (record raw { buf = b₁ }) (record raw { buf = b₂; nbyte = 2 }) raw'' 0xa5 xs
            no_message ss
            (ground (
              arith,
              synced_first b₁ 0xa5 size₁,
              synced_second raw.buf 0x5a size,
              synced_second b₁ 0xa5 size₁,
            ))
            rest),
  )
    where
      b₁ : List ℕ
      b₁ = synced raw.buf 0x5a

      size₁ : length b₁ ≡ 512
      size₁ = length-synced raw.buf 0x5a ∙ size

      b₂ : List ℕ
      b₂ = synced b₁ 0xa5

  -- The bytes of a payload up to the last, which decodes the frame.
  pub feed-body :
      (x : ℕ) (xs : List ℕ) (raw raw'' : Raw F) (s : Status)
      → 6 ≤ raw.nbyte
      → raw.nbyte + length (x ∷ xs) ≡ raw.len + 6
      → raw.len + 6 ≤ length raw.buf
      → decode_ch fl (record raw { buf = write_at raw.buf raw.nbyte (x ∷ xs); nbyte = 0 }) c
        ≡ done (s, raw'')
      → feed fl raw (x ∷ xs) c ≡ done (ends_with xs s, raw'')
  feed-body x [] raw raw'' s started whole room decoded =
      feed-cons raw raw'' raw'' x [] s []
        (input-last raw x started (omega arith) (omega arith) ∙ decoded) (feed-nil raw'')
  feed-body x (y ∷ xs) raw raw'' s started whole room decoded =
      feed-cons raw (stored raw x) raw'' x (y ∷ xs) no_message (ends_with xs s)
        (input-waits raw x (omega arith) (omega arith) (omega arith) (omega arith))
        (feed-body y xs (stored raw x) raw'' s (omega arith) (omega arith)
          (omega (arith, length-set raw.buf raw.nbyte x)) decoded)

  -- The last byte of the header, and the payload.
  pub feed-header :
      (x : ℕ) (xs : List ℕ) (raw raw'' : Raw F) (s : Status)
      → raw.nbyte ≡ 5
      → length raw.buf ≡ 512
      → u2 (set raw.buf raw.nbyte x) 2 ≡ some (length xs)
      → length xs ≤ 506
      → decode_ch fl
          (record raw { len = length xs; buf = write_at (set raw.buf raw.nbyte x) 6 xs; nbyte = 0 })
          c
        ≡ done (s, raw'')
      → feed fl raw (x ∷ xs) c ≡ done (ends_with xs s, raw'')
  unfolding complete
  feed-header x [] raw raw'' s five size found short decoded =
      feed-cons raw raw'' raw'' x [] s []
        (input-header raw x 0 five size found short ∙ ground arith ∙ decoded) (feed-nil raw'')
  feed-header x (y ∷ ys) raw raw'' s five size found short decoded =
      feed-cons raw (record (stored raw x) { len = length (y ∷ ys) }) raw'' x (y ∷ ys) no_message
        (ends_with ys s) (input-header raw x (length (y ∷ ys)) five size found short ∙ ground arith)
        (feed-body y ys (record (stored raw x) { len = length (y ∷ ys) }) raw'' s (omega arith)
          (omega arith) (omega (arith, length-set raw.buf raw.nbyte x))
          (ap
              (λ (n : ℕ).
                decode_ch fl
                  (record raw {
                    len = length (y ∷ ys);
                    buf = write_at (set raw.buf raw.nbyte x) n (y ∷ ys);
                    nbyte = 0;
                  })
                  c)
              {x = raw.nbyte + 1} {y = 6} (omega arith)
            ∙ decoded))
