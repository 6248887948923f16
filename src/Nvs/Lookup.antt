-- ===== src/Nvs/Lookup.antt =====
-- The lookup of components/sys/nvs_mgmt.c by name, and an independent one that compares whole names.
use rfmarkit_esp_node.Base.{
  ℕ, suc, ◌+◌, ◌≡◌, ◌≢◌, refl, ap, ◌∙◌, arith, Bool, true, false, ◌&&◌, Option, none, some, List,
  [], ◌∷◌, ◌++◌, length, ◌==◌, if◌then◌else◌,
}
use rfmarkit_esp_node.Nvs.{strncmp_is_0, longer, sys_find_var}

unfoldable pub is_name : List ℕ → List ℕ → Bool
is_name [] [] = true
is_name [] (y ∷ ys) = false
is_name (x ∷ xs) [] = false
is_name (x ∷ xs) (y ∷ ys) = (x == y) && is_name xs ys

-- The index of the first entry with the name.
unfoldable pub first_named : List (List ℕ) → ℕ → List ℕ → Option ℕ
unfolding is_name
first_named [] idx name = none
first_named (entry ∷ table) idx name =
    let rest = first_named table (idx + 1) name in if is_name name entry then some idx else rest

-- No `?` stands in the name.
abbrev pub NoQuery : List ℕ → Type 0
NoQuery [] = Unit {0}
NoQuery (c ∷ cs) = (c ≢ 63) × NoQuery cs

abbrev pub AllNoQuery : List (List ℕ) → Type 0
AllNoQuery [] = Unit {0}
AllNoQuery (t ∷ ts) = NoQuery t × AllNoQuery ts

-- What follows the name: the end of the string, or a query.
abbrev pub IsRest : List ℕ → Type 0
IsRest [] = Unit {0}
IsRest (c ∷ cs) = c ≡ 63

longer-suc : (a b : ℕ) → longer (suc a) (suc b) ≡ suc (longer a b)
unfolding longer
longer-suc a b = ground arith

strncmp-is_name :
    (name rest entry : List ℕ)
    → NoQuery entry
    → IsRest rest
    → strncmp_is_0 (name ++ rest) entry (longer (length entry) (length name)) ≡ is_name name entry
unfolding strncmp_is_0 longer is_name
strncmp-is_name [] rest [] plain end = refl
strncmp-is_name [] [] (y ∷ ys) plain end =
    ap (strncmp_is_0 [] (y ∷ ys)) {y = suc (length ys)} (ground arith)
strncmp-is_name [] (c ∷ cs) (y ∷ ys) plain end =
    ap (strncmp_is_0 (c ∷ cs) (y ∷ ys)) {y = suc (length ys)} (ground arith)
    ∙ ground (arith, end, plain.0)
strncmp-is_name (x ∷ xs) rest [] plain end =
    ap (strncmp_is_0 (x ∷ (xs ++ rest)) []) {y = suc (length xs)} (ground arith)
strncmp-is_name (x ∷ xs) rest (y ∷ ys) plain end =
    ap (strncmp_is_0 (x ∷ (xs ++ rest)) (y ∷ ys)) (longer-suc (length ys) (length xs))
    ∙ ap (λ (t : Bool). (x == y) && t) (strncmp-is_name xs rest ys plain.1 end)

found_if :
    (t u : Bool) (idx : ℕ) (a b : Option ℕ)
    → t ≡ u
    → a ≡ b
    → (if t then some idx else a) ≡ (if u then some idx else b)
found_if t u idx a b e e' = λ i. if e i then some idx else e' i

-- In a table whose names have no `?`, with the length of the name, the lookup finds the first entry that has
-- the whole name, whether the string ends after the name or goes on with `?`.
pub sys_find_var-first_named :
    (table : List (List ℕ)) (idx : ℕ) (name rest : List ℕ)
    → AllNoQuery table
    → IsRest rest
    → sys_find_var table idx (name ++ rest) (length name) ≡ first_named table idx name
unfolding sys_find_var first_named
sys_find_var-first_named [] idx name rest plain end = refl
sys_find_var-first_named (entry ∷ table) idx name rest plain end =
    found_if _ _ idx _ _ (strncmp-is_name name rest entry plain.0 end)
      (sys_find_var-first_named table (idx + 1) name rest plain.1 end)
