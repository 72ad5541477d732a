-- ===== src/Prelude/Text.antt =====
-- What the program does with Python's strings: prefixes, and numbers in decimal digits.
use Prim.Native.Nat.{ℕ, zero, suc, ◌+◌, ◌-◌, ◌*◌, ◌/◌, ◌%◌}
use Prim.Native.Char.{code}
use Prim.Native.String.{String, ◌++◌}
use mathlib.Core.Bool.{Bool, true, false, ◌&&◌}
use mathlib.Core.Option.{Option, none, some}
use mathlib.Core.Path.{◌≡◌, refl}
use b2bua.Prelude.Tests.{ltb, leb, if◌then◌else◌, ◌==◌}

-- `s[len(p):]` if `s.startswith(p)`.
unfoldable pub drop_prefix : String → String → Option String
drop_prefix String.[] s = some s
drop_prefix (String.◌∷◌ c p) String.[] = none
drop_prefix (String.◌∷◌ c p) (String.◌∷◌ d s) = if code c == code d then drop_prefix p s else none

unfoldable pub is_blank : String → Bool
is_blank String.[] = true
is_blank (String.◌∷◌ c s) = false

unfoldable pub read_digits : ℕ → String → Option ℕ
read_digits n String.[] = some n
read_digits n (String.◌∷◌ c s) =
    if leb 48 (code c) && leb (code c) 57 then read_digits (n * 10 + (code c - 48)) s else none

-- `int(s)` of ASCII digits; `none` is a ValueError.
unfoldable pub read_nat : String → Option ℕ
unfolding read_digits
read_nat String.[] = none
read_nat (String.◌∷◌ c s) = read_digits 0 (String.◌∷◌ c s)

abbrev digit : ℕ → String
digit n =
    if n == 0
    then "0"
    else if n == 1
    then "1"
    else if n == 2
    then "2"
    else if n == 3
    then "3"
    else if n == 4
    then "4"
    else if n == 5
    then "5"
    else if n == 6
    then "6"
    else if n == 7
    then "7"
    else if n == 8
    then "8"
    else "9"

unfoldable decimal_of : ℕ → ℕ → String
decimal_of zero n = ""
decimal_of (suc f) n =
    let rest = decimal_of f (n / 10) in if ltb n 10 then digit n else rest ++ digit (n % 10)

-- `'%d' % n`.
unfoldable pub decimal : ℕ → String
unfolding decimal_of
decimal n = decimal_of (suc n) n

prefix_test : drop_prefix "nat-" "nat-123" ≡ some "123"
unfolding drop_prefix
prefix_test = refl

read_test : read_nat "3600" ≡ some 3600
unfolding read_nat
read_test = refl

decimal_test : decimal 1203 ≡ "1203"
unfolding decimal
decimal_test = refl
