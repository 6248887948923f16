-- ===== src/Nvs/Example.antt =====
-- A flash library that keeps its documented behaviour.
use rfmarkit_esp_node.Base.{
  ℕ, ◌≡◌, refl, arith, true, Option, none, some, List, [], ◌∷◌, length, ltb, if◌then◌else◌,
}
use rfmarkit_esp_node.Base.Int.{ℤ}
use rfmarkit_esp_node.Nvs.Lookup.{is_name}
use rfmarkit_esp_node.Nvs.Load.{Flash, IsFlash}

-- A flash in memory: a table of numbers and a table of blobs.
abbrev pub Tables : Type 0
Tables = (List ℕ → Option ℤ) × (List ℕ → Option (List ℕ))

abbrev fits : ℕ → Option (List ℕ) → Option (List ℕ)
fits n none = none
fits n (some b) = if ltb n (length b) then none else some b

unfoldable pub tables_flash : Flash Tables
unfolding is_name
tables_flash = record {
  get_i32 = λ s key. s.0 key;
  set_i32 = λ key z s. ((λ k. if is_name k key then some z else s.0 k), s.1);
  get_blob = λ s key n. fits n (s.1 key);
  set_blob = λ key b s. (s.0, λ k. if is_name k key then some b else s.1 k);
}

is_name_self : (s : List ℕ) → is_name s s ≡ true
unfolding is_name
is_name_self [] = refl
is_name_self (c ∷ cs) = rw (is_name_self cs) (ground arith)

pub tables_flash-IsFlash : IsFlash tables_flash
unfolding tables_flash
tables_flash-IsFlash = record {
  i32_same = λ key z s. rw (is_name_self key) refl;
  i32_other = λ key other z s e. rw e refl;
  i32_blob = λ key other z s n e. refl;
  blob_same = λ key b s n h. rw (is_name_self key) (ground (arith, h));
  blob_other = λ key other b s n e. rw e refl;
  blob_short = λ key b s n h. rw (is_name_self key) (ground (arith, h));
}

abbrev pub empty : Tables
empty = ((λ key. none), (λ key. none))
