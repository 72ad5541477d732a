-- ===== src/Sip/Text.antt =====
-- Text as the parsers read it (sippy/SipURL.py with Python's str and urllib): a list of the bytes of
-- its UTF-8. `quote` and `unquote` work on these; an escape that is no UTF-8 stays as its byte.
pub mod Laws
use Prim.Native.Char.{code}
use b2bua.Prelude.{
  ℕ, zero, suc, ◌+◌, ◌-◌, ◌*◌, ◌/◌, ◌%◌, String, Bool, true, false, Option, none, some, List, [],
  ◌∷◌, ◌++◌, ◌==◌, ltb, leb, ◌&&◌, ◌||◌, not, if◌then◌else◌,
}

abbrev pub Str : Type 0
Str = List ℕ

-- The bytes of an ASCII literal.
abbrev pub codes : String → Str
codes String.[] = []
codes (String.◌∷◌ c s) = code c ∷ codes s

unfoldable pub same_str : Str → Str → Bool
same_str [] [] = true
same_str (a ∷ s) (b ∷ t) = (a == b) && same_str s t
same_str _ _ = false

-- `s.split(c, 1)`: what is before the first `c`, and what is after it if there is one.
unfoldable pub cut : ℕ → Str → Str × Option Str
cut c [] = ([], none)
cut c (x ∷ s) = let r = cut c s in if x == c then ([], some s) else (x ∷ r.0, r.1)

-- `s.split(c)`: the first piece and the others.
unfoldable pub split : ℕ → Str → Str × List Str
split c [] = ([], [])
split c (x ∷ s) = let r = split c s in if x == c then ([], r.0 ∷ r.1) else (x ∷ r.0, r.1)

-- Each piece after a `c`.
unfoldable pub prefixed : ℕ → List Str → Str
prefixed c [] = []
prefixed c (p ∷ ps) = c ∷ (p ++ prefixed c ps)

unfoldable pub has_byte : ℕ → Str → Bool
has_byte c [] = false
has_byte c (x ∷ s) = (x == c) || has_byte c s

abbrev pub is_digit : ℕ → Bool
is_digit c = leb 48 c && leb c 57

abbrev pub is_alpha : ℕ → Bool
is_alpha c = (leb 65 c && leb c 90) || (leb 97 c && leb c 122)

-- What `quote` leaves as it is: letters, digits, `_.-~` and `safe`.
abbrev pub is_kept : Str → ℕ → Bool
is_kept safe c =
    (is_alpha c || is_digit c)
    || ((c == 95) || (c == 46) || (c == 45) || (c == 126) || has_byte c safe)

abbrev pub hex_digit : ℕ → ℕ
hex_digit d = if ltb d 10 then 48 + d else 55 + d

unfoldable pub quote : Str → Str → Str
quote safe [] = []
quote safe (c ∷ s) =
    if is_kept safe c
    then c ∷ quote safe s
    else 37 ∷ (hex_digit (c / 16) ∷ (hex_digit (c % 16) ∷ quote safe s))

abbrev pub hex_value : ℕ → Option ℕ
hex_value c =
    if is_digit c
    then some (c - 48)
    else if leb 65 c && leb c 70
    then some (c - 55)
    else if leb 97 c && leb c 102
    then some (c - 87)
    else none

abbrev pub escaped : Option ℕ → Option ℕ → Option ℕ
escaped (some a) (some b) = some (16 * a + b)
escaped _ _ = none

unfoldable pub unquote : Str → Str
unquote [] = []
unquote (c ∷ []) = c ∷ []
unquote (c ∷ (a ∷ [])) = c ∷ (a ∷ [])
unquote (c ∷ (a ∷ (b ∷ s))) =
    let long = unquote s in
    let short = unquote (a ∷ (b ∷ s)) in
    if c == 37
    then elim (escaped (hex_value a) (hex_value b)) [ some n ↦ n ∷ long | none ↦ c ∷ short ]
    else c ∷ short

-- `'%d' % n`, on fuel that n itself exceeds no less than the number of its digits.
unfoldable pub digits : ℕ → ℕ → Str → Str
digits zero n out = out
digits (suc f) n out =
    let one = (48 + n % 10) ∷ out in if ltb n 10 then one else digits f (n / 10) one

abbrev pub decimal : ℕ → Str
decimal n = digits (suc n) n []

unfoldable pub read_from : ℕ → Str → Option ℕ
read_from n [] = some n
read_from n (c ∷ s) = if is_digit c then read_from (n * 10 + (c - 48)) s else none

-- `int(s)` of digits; `none` is a ValueError.
unfoldable pub read_int : Str → Option ℕ
unfolding read_from
read_int [] = none
read_int (c ∷ s) = read_from 0 (c ∷ s)
