-- ===== src/Blink/Pattern.antt =====
-- `blink_prepare_pattern` of components/blink/blink.c: the code word as a sequence of brightness pairs.
use rfmarkit_esp_node.Base.{
  ℕ, zero, suc, ◌+◌, ◌-◌, ◌*◌, ◌%◌, ◌≤◌, ◌<◌, ◌≡◌, ◌⊎◌, inl, inr, sym, ap, ◌∙◌, arith, List, [],
  ◌∷◌, length, get_or, set, ◌==◌, if◌then◌else◌, length-set, get_or-set_self, get_or-set_ne,
  write_at, length-write_at,
}
use mathlib.Core.Path.{ap₂, transport, subst}
use rfmarkit_esp_node.Blink.{Blink}
use rfmarkit_esp_node.Blink.Hamming.{fill_u8_hamming}

-- One round of the loop, and the first n rounds.
unfoldable pub encode_bit : List ℕ → List ℕ → ℕ → List ℕ
encode_bit hamming_seq p idx =
    let first = 4 + idx * 2 in
    let second = 4 + idx * 2 + 1 in
    let p' =
      set p first (
        if get_or hamming_seq idx 0 == 0 then get_or p (first - 2) 0 else get_or p (first - 1) 0) in
    set p' second
      (if get_or hamming_seq idx 0 == 0 then get_or p' (second - 2) 0 else get_or p' (second - 3) 0)

unfoldable pub encode_bits : List ℕ → List ℕ → ℕ → List ℕ
unfolding encode_bit
encode_bits hamming_seq p zero = p
encode_bits hamming_seq p (suc n) = encode_bit hamming_seq (encode_bits hamming_seq p n) n

-- `blink_prepare_pattern`, with what stood in the uninitialised `hamming_seq`
unfoldable pub blink_prepare_pattern : List ℕ → ℕ → Blink → Blink
unfolding encode_bits fill_u8_hamming
blink_prepare_pattern uninitialised seq b = record b {
  blink_idx = 0;
  s_seq_enc_pattern =
      encode_bits (fill_u8_hamming uninitialised (seq % 256))
        (write_at b.s_seq_enc_pattern 0 (255 ∷ 255 ∷ 255 ∷ 64 ∷ [])) 12;
}

-- A pair of brightness values has one of each.
abbrev pub PairOf : ℕ → ℕ → Type 0
PairOf x y = ((x ≡ 255) × (y ≡ 64)) ⊎ ((x ≡ 64) × (y ≡ 255))

abbrev Paired : List ℕ → ℕ → Type 0
Paired p k = PairOf (get_or p (2 + k * 2) 0) (get_or p (2 + k * 2 + 1) 0)

-- The k-th bit is 0 where the pair repeats, 1 where it is swapped.
abbrev Coded : List ℕ → List ℕ → ℕ → Type 0
Coded hamming_seq p k =
    (get_or p (4 + k * 2) 0 ≡ (
      if get_or hamming_seq k 0 == 0 then get_or p (2 + k * 2) 0 else get_or p (2 + k * 2 + 1) 0))
    × (get_or p (4 + k * 2 + 1) 0 ≡ (
        if get_or hamming_seq k 0 == 0 then get_or p (2 + k * 2 + 1) 0 else get_or p (2 + k * 2) 0))

length-encode_bit : (h p : List ℕ) (n : ℕ) → length (encode_bit h p n) ≡ length p
unfolding encode_bit
length-encode_bit h p n = length-set _ (4 + n * 2 + 1) _ ∙ length-set p (4 + n * 2) _

encode_bit-before :
    (h p : List ℕ) (n j : ℕ) → j < 4 + n * 2 → get_or (encode_bit h p n) j 0 ≡ get_or p j 0
unfolding encode_bit
encode_bit-before h p n j lt =
    get_or-set_ne _ (4 + n * 2 + 1) j _ 0 (omega arith)
    ∙ get_or-set_ne p (4 + n * 2) j _ 0 (omega arith)

still_pair :
    (b x y u v : ℕ)
    → PairOf x y
    → u ≡ (if b == 0 then x else y)
    → v ≡ (if b == 0 then y else x)
    → PairOf u v
still_pair b x y u v h first second = ground arith

module _ (h p : List ℕ) (n : ℕ) (room : 4 + n * 2 + 1 < length p) where
  encode_bit-first :
      get_or (encode_bit h p n) (4 + n * 2) 0
      ≡ (if get_or h n 0 == 0 then get_or p (2 + n * 2) 0 else get_or p (2 + n * 2 + 1) 0)
  unfolding encode_bit
  encode_bit-first =
      get_or-set_ne _ (4 + n * 2 + 1) (4 + n * 2) _ 0 (omega arith)
      ∙ get_or-set_self p (4 + n * 2) _ 0 (omega arith)
      ∙ ap₂ (λ (a b : ℕ). if get_or h n 0 == 0 then get_or p a 0 else get_or p b 0) (omega arith)
          (omega arith)

  encode_bit-second :
      get_or (encode_bit h p n) (4 + n * 2 + 1) 0
      ≡ (if get_or h n 0 == 0 then get_or p (2 + n * 2 + 1) 0 else get_or p (2 + n * 2) 0)
  unfolding encode_bit
  encode_bit-second =
      get_or-set_self (set p (4 + n * 2) _) (4 + n * 2 + 1) _ 0
        (omega (arith, length-set p (4 + n * 2) _))
      ∙ ap₂ (λ (a b : ℕ). if get_or h n 0 == 0 then a else b)
          (get_or-set_ne p (4 + n * 2) (4 + n * 2 + 1 - 2) _ 0 (omega arith)
            ∙ ap (λ (a : ℕ). get_or p a 0) (omega arith))
          (get_or-set_ne p (4 + n * 2) (4 + n * 2 + 1 - 3) _ 0 (omega arith)
            ∙ ap (λ (a : ℕ). get_or p a 0) (omega arith))

  encode_bit-Coded : Coded h (encode_bit h p n) n
  encode_bit-Coded = (
    encode_bit-first
        ∙ ap₂ (λ (a b : ℕ). if get_or h n 0 == 0 then a else b)
            (sym (encode_bit-before h p n (2 + n * 2) (omega arith)))
            (sym (encode_bit-before h p n (2 + n * 2 + 1) (omega arith))),
    encode_bit-second
        ∙ ap₂ (λ (a b : ℕ). if get_or h n 0 == 0 then a else b)
            (sym (encode_bit-before h p n (2 + n * 2 + 1) (omega arith)))
            (sym (encode_bit-before h p n (2 + n * 2) (omega arith))),
  )

  encode_bit-Paired : Paired p n → Paired (encode_bit h p n) (suc n)
  encode_bit-Paired pair =
      still_pair (get_or h n 0) (get_or p (2 + n * 2) 0) (get_or p (2 + n * 2 + 1) 0) _ _ pair
        (ap (λ (a : ℕ). get_or (encode_bit h p n) a 0) {y = 4 + n * 2} (omega arith)
          ∙ encode_bit-first)
        (ap (λ (a : ℕ). get_or (encode_bit h p n) a 0) {y = 4 + n * 2 + 1} (omega arith)
          ∙ encode_bit-second)

last_or_before : (k n : ℕ) → k ≤ n → (k < n) ⊎ (k ≡ n)
last_or_before k n h = ground arith

-- The two bytes before the first bit.
sync_value :
    (p : List ℕ)
    → length p ≡ 28
    → let q = write_at p 0 (255 ∷ 255 ∷ 255 ∷ 64 ∷ []) in (get_or q 2 0 ≡ 255) × (get_or q 3 0 ≡ 64)
sync_value p h = (
  get_or-set_ne (set (set (set p 0 255) 1 255) 2 255) 3 2 64 0 (omega arith)
      ∙ get_or-set_self (set (set p 0 255) 1 255) 2 255 0
          (omega (arith, length-set (set p 0 255) 1 255, length-set p 0 255)),
  get_or-set_self (set (set (set p 0 255) 1 255) 2 255) 3 64 0 (
      omega (
        arith,
        length-set (set (set p 0 255) 1 255) 2 255,
        length-set (set p 0 255) 1 255,
        length-set p 0 255,
      )),
)

start_value :
    (p : List ℕ)
    → length p ≡ 28
    → let q = write_at p 0 (255 ∷ 255 ∷ 255 ∷ 64 ∷ []) in
      (get_or q 0 0 ≡ 255) × (get_or q 1 0 ≡ 255)
start_value p h =
    let one = set p 0 255 in
    let two = set one 1 255 in
    let three = set two 2 255 in
    (
      get_or-set_ne three 3 0 64 0 (omega arith)
          ∙ get_or-set_ne two 2 0 255 0 (omega arith)
          ∙ get_or-set_ne one 1 0 255 0 (omega arith)
          ∙ get_or-set_self p 0 255 0 (omega (arith, h)),
      get_or-set_ne three 3 1 64 0 (omega arith)
          ∙ get_or-set_ne two 2 1 255 0 (omega arith)
          ∙ get_or-set_self one 1 255 0 (omega (arith, h, length-set p 0 255)),
    )

-- What the loop has done after n rounds.
record Encoded (h p : List ℕ) (n : ℕ) : Type 0 where
  size : length p ≡ 28
  first_two : (get_or p 0 0 ≡ 255) × (get_or p 1 0 ≡ 255)
  paired : (k : ℕ) → k ≤ n → Paired p k
  coded : (k : ℕ) → k < n → Coded h p k

module _ (h p : List ℕ) (n : ℕ) (short : n < 12) (before : Encoded h p n) where
  next_size : 4 + n * 2 + 1 < length p
  next_size = omega (arith, before.size)

  same_at : (j : ℕ) → j < 4 + n * 2 → get_or p j 0 ≡ get_or (encode_bit h p n) j 0
  same_at j lt = sym (encode_bit-before h p n j lt)

  kept : (k : ℕ) → k < n → Coded h (encode_bit h p n) k
  kept k lt =
      let c = before.coded k lt in
      (
        sym (same_at (4 + k * 2) (omega arith))
            ∙ c.0
            ∙ ap₂ (λ (a b : ℕ). if get_or h k 0 == 0 then a else b)
                (same_at (2 + k * 2) (omega arith)) (same_at (2 + k * 2 + 1) (omega arith)),
        sym (same_at (4 + k * 2 + 1) (omega arith))
            ∙ c.1
            ∙ ap₂ (λ (a b : ℕ). if get_or h k 0 == 0 then a else b)
                (same_at (2 + k * 2 + 1) (omega arith)) (same_at (2 + k * 2) (omega arith)),
      )

  kept_pair : (k : ℕ) → k ≤ n → Paired (encode_bit h p n) k
  kept_pair k le =
      transport
        (λ i.
          PairOf (sym (encode_bit-before h p n (2 + k * 2) (omega arith)) i)
            (sym (encode_bit-before h p n (2 + k * 2 + 1) (omega arith)) i))
        (before.paired k le)

  encode_bit-Encoded : Encoded h (encode_bit h p n) (suc n)
  encode_bit-Encoded = record {
    size = length-encode_bit h p n ∙ before.size;
    first_two = (
      sym (same_at 0 (omega arith)) ∙ before.first_two.0,
      sym (same_at 1 (omega arith)) ∙ before.first_two.1,
    );
    paired = λ k le. elim (last_or_before k (suc n) le) [
      | inl lt ↦ kept_pair k (omega arith)
      | inr e ↦
          subst (Paired (encode_bit h p n)) (sym e)
            (encode_bit-Paired h p n next_size (before.paired n (omega arith)))
    ];
    coded = λ k lt. elim (last_or_before k n (omega arith)) [
      | inl l ↦ kept k l
      | inr e ↦ subst (Coded h (encode_bit h p n)) (sym e) (encode_bit-Coded h p n next_size)
    ];
  }

encode_bits-Encoded :
    (h p : List ℕ) (n : ℕ)
    → n ≤ 12
    → length p ≡ 28
    → (get_or p 0 0 ≡ 255) × (get_or p 1 0 ≡ 255)
    → Paired p 0
    → Encoded h (encode_bits h p n) n
unfolding encode_bits
encode_bits-Encoded h p zero le size two start = record {
  size = size;
  first_two = two;
  paired = λ k at. subst (Paired p) {x = 0} (omega arith) start;
  coded = λ k lt. absurd (omega arith);
}
encode_bits-Encoded h p (suc n) le size two start =
    encode_bit-Encoded h (encode_bits h p n) n (omega arith)
      (encode_bits-Encoded h p n (omega arith) size two start)

-- The pattern has 28 bytes. The first two are 255; each pair of bytes from the second on is a 255 and a 64, in one of the two
-- orders; and for each of the 12 bits of the code word the pair after it is the pair before it if the bit is 0, and
-- the pair before it swapped if the bit is not 0.
pub blink_prepare_pattern-Coded :
    (uninitialised : List ℕ) (seq : ℕ) (b : Blink)
    → length b.s_seq_enc_pattern ≡ 28
    → let p = (blink_prepare_pattern uninitialised seq b).s_seq_enc_pattern in
      let word = fill_u8_hamming uninitialised (seq % 256) in
      (length p ≡ 28)
      × ((get_or p 0 0 ≡ 255) × (get_or p 1 0 ≡ 255))
      × ((k : ℕ) → k ≤ 12 → PairOf (get_or p (2 + k * 2) 0) (get_or p (2 + k * 2 + 1) 0))
      × ((k : ℕ)
          → k < 12
          → (get_or p (4 + k * 2) 0 ≡ (
              if get_or word k 0 == 0 then get_or p (2 + k * 2) 0 else get_or p (2 + k * 2 + 1) 0))
            × (get_or p (4 + k * 2 + 1) 0 ≡ (
                if get_or word k 0 == 0
                then get_or p (2 + k * 2 + 1) 0
                else get_or p (2 + k * 2) 0)))
unfolding blink_prepare_pattern
blink_prepare_pattern-Coded uninitialised seq b size =
    let e =
      encode_bits-Encoded (fill_u8_hamming uninitialised (seq % 256))
        (write_at b.s_seq_enc_pattern 0 (255 ∷ 255 ∷ 255 ∷ 64 ∷ [])) 12 (omega arith)
        (length-write_at b.s_seq_enc_pattern 0 (255 ∷ 255 ∷ 255 ∷ 64 ∷ []) ∙ size)
        (start_value b.s_seq_enc_pattern size) (inl (sync_value b.s_seq_enc_pattern size)) in
    (e.size, e.first_two, e.paired, e.coded)
