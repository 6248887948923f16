-- ===== src/Base/Text.antt =====
-- C strings as the lists of their bytes before the terminator: `strcmp`, `strrchr`, `strtol` with base 10 and `itoa`.
use Prim.Native.Nat.{ℕ, ◌+◌, ◌-◌, ◌*◌, ◌/◌, ◌%◌, ◌^◌}
use mathlib.Core.Bool.{Bool, true, false, ◌&&◌, ◌||◌}
use mathlib.Core.Option.{Option, none, some}
use mathlib.Core.List.{List, [], ◌∷◌}
use rfmarkit_esp_node.Base.Tests.{ltb, leb, ◌==◌, if◌then◌else◌}
use rfmarkit_esp_node.Base.Int.{ℤ, pos, negsuc}

-- Whether `strcmp` is 0.
unfoldable pub same_text : List ℕ → List ℕ → Bool
same_text [] [] = true
same_text [] (y ∷ ys) = false
same_text (x ∷ xs) [] = false
same_text (x ∷ xs) (y ∷ ys) = (x == y) && same_text xs ys

-- The C string at the start of a buffer.
unfoldable pub c_text : List ℕ → List ℕ
c_text [] = []
c_text (c ∷ cs) = if c == 0 then [] else c ∷ c_text cs

-- `strrchr`: from the last place on where the byte stands.
unfoldable pub strrchr : List ℕ → ℕ → Option (List ℕ)
strrchr [] b = none
strrchr (c ∷ cs) b = elim (strrchr cs b) [
  | some found ↦ some found
  | none ↦ if c == b then some (c ∷ cs) else none
]

unfoldable pub is_digit : ℕ → Bool
is_digit c = leb b'0' c && leb c b'9'

-- The number that the digits spell from a first value on, and what follows them.
unfoldable pub read_digits : List ℕ → ℕ → ℕ × List ℕ
unfolding is_digit
read_digits [] n = (n, [])
read_digits (c ∷ cs) n =
    let rest = read_digits cs (n * 10 + (c - b'0')) in if is_digit c then rest else (n, c ∷ cs)

unfoldable pub skip_spaces : List ℕ → List ℕ
skip_spaces [] = []
skip_spaces (c ∷ cs) = if (c == b' ') || (leb 9 c && leb c 13) then skip_spaces cs else c ∷ cs

-- A value with its sign, in the range of 32 bits.
unfoldable pub signed : Bool → ℕ → ℤ
signed negative n =
    if negative
    then (if n == 0 then pos 0 else if ltb (2 ^ 31) n then negsuc (2 ^ 31 - 1) else negsuc (n - 1))
    else if ltb n (2 ^ 31)
    then pos n
    else pos (2 ^ 31 - 1)

-- The digits after the sign; without a digit the value is 0 and the end is the start.
unfoldable pub after_sign : List ℕ → Bool → List ℕ → ℤ × List ℕ
unfolding is_digit read_digits signed
after_sign start negative [] = (pos 0, start)
after_sign start negative (c ∷ cs) =
    if is_digit c
    then (signed negative (read_digits (c ∷ cs) 0).0, (read_digits (c ∷ cs) 0).1)
    else (pos 0, start)

unfoldable pub with_sign : List ℕ → List ℕ → ℤ × List ℕ
unfolding after_sign
with_sign start [] = (pos 0, start)
with_sign start (c ∷ cs) =
    if c == b'-'
    then after_sign start true cs
    else if c == b'+'
    then after_sign start false cs
    else after_sign start false (c ∷ cs)

-- `strtol` with base 10, for a `long` of 32 bits: the value, and the text from the end pointer on.
unfoldable pub strtol10 : List ℕ → ℤ × List ℕ
unfolding with_sign skip_spaces
strtol10 s = with_sign s (skip_spaces s)

-- The digits of a number below 1000.
unfoldable pub three_digits : ℕ → List ℕ
three_digits n =
    if ltb n 10
    then (b'0' + n) ∷ []
    else if ltb n 100
    then (b'0' + n / 10) ∷ (b'0' + n % 10) ∷ []
    else (b'0' + n / 100) ∷ (b'0' + n / 10 % 10) ∷ (b'0' + n % 10) ∷ []

-- `itoa` with base 10, for a value between -999 and 999.
unfoldable pub itoa : ℤ → List ℕ
unfolding three_digits
itoa (pos n) = three_digits n
itoa (negsuc n) = b'-' ∷ three_digits (n + 1)
