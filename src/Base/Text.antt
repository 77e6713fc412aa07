-- ===== src/Base/Text.antt =====
-- Python's text operations that the program uses: `str(n)`, `int(s)`, `s.isdigit()`,
-- `t in s`, and joining by `format`.
use Prim.Native.Char.{code}
use Prim.Native.String
use Prim.Native.String.{String}
use Prim.Native.Nat.{ℕ, zero, suc, ◌+◌, ◌-◌, ◌*◌, ◌/◌, ◌%◌}
use mathlib.Core.Bool.{Bool, ◌&&◌, not}
use mathlib.Core.List.{List, [], ◌∷◌}
use text.Mathlib.Text.{find?}
use networking_nsx_t.Base.Tests.{◌==◌, ltb, leb, nat_eq, if◌then◌else◌, is_some}
use networking_nsx_t.Base.Lists.{all_of}

infixr 60 ◌+++◌
abbrev pub ◌+++◌ : String → String → String
s +++ t = String.◌++◌ s t

-- The code points of a text. `String` has its own `[]` and `∷`.
abbrev pub codes : String → List ℕ
codes String.[] = []
codes (String.◌∷◌ c s) = code c ∷ codes s

abbrev digit : ℕ → String
digit n =
    if nat_eq n 0
    then "0"
    else if nat_eq n 1
    then "1"
    else if nat_eq n 2
    then "2"
    else if nat_eq n 3
    then "3"
    else if nat_eq n 4
    then "4"
    else if nat_eq n 5
    then "5"
    else if nat_eq n 6
    then "6"
    else if nat_eq n 7
    then "7"
    else if nat_eq n 8
    then "8"
    else "9"

-- Each round takes one digit, so `n + 1` rounds are enough.
str_loop : ℕ → ℕ → String → String
str_loop zero n tail = tail
str_loop (suc fuel) n tail =
    let rest = str_loop fuel (n / 10) (digit (n % 10) +++ tail) in
    if ltb n 10 then digit n +++ tail else rest

-- `str(n)` of a number
unfoldable pub str : ℕ → String
unfolding str_loop
str n = str_loop (suc n) n ""

abbrev is_digit : ℕ → Bool
is_digit c = leb b'0' c && leb c b'9'

-- `s.isdigit()` of a byte string: not empty, and digits only
unfoldable pub is_digits : String → Bool
is_digits s = not (s == "") && all_of is_digit (codes s)

int_loop : ℕ → List ℕ → ℕ
int_loop n [] = n
int_loop n (c ∷ cs) = int_loop (n * 10 + (c - b'0')) cs

-- `int(s)` of a text of digits
unfoldable pub int_of : String → ℕ
unfolding int_loop
int_of s = int_loop 0 (codes s)

-- `part in whole` of two texts
abbrev pub is_substring : String → String → Bool
is_substring part whole = is_some (find? whole part)
