-- ===== src/Sip/Text/Laws.antt =====
-- Splitting what was joined, reading what was printed.
use mathlib.Core.List.{append-nil}
use b2bua.Prelude.{
  ℕ, zero, suc, ◌+◌, ◌*◌, ◌/◌, ◌%◌, ◌<◌, ◌≡◌, ◌⊎◌, inl, inr, refl, ap, sym, ◌∙◌, Bool, true, false,
  none, some, List, [], ◌∷◌, ◌++◌, ◌==◌, ltb, ◌||◌, arith, All, if_elim, if◌then◌else◌,
}
use b2bua.Sip.Text.{
  Str, cut, split, prefixed, has_byte, is_digit, is_alpha, is_kept, hex_digit, quote, hex_value,
  escaped, unquote, digits, decimal, read_from, read_int,
}

-- The byte does not occur.
abbrev pub Free : ℕ → Str → Type 0
Free c s = has_byte c s ≡ false

pub cut-Free : (c : ℕ) (s : Str) → Free c s → cut c s ≡ (s, none)
unfolding cut has_byte
cut-Free c [] h = refl
cut-Free c (x ∷ s) h = ground (arith, h, cut-Free c s)

pub cut-append : (c : ℕ) (s t : Str) → Free c s → cut c (s ++ c ∷ t) ≡ (s, some t)
unfolding cut has_byte
cut-append c [] t h = ground arith
cut-append c (x ∷ s) t h = ground (arith, h, cut-append c s t)

pub split-Free : (c : ℕ) (s : Str) → Free c s → split c s ≡ (s, [])
unfolding split has_byte
split-Free c [] h = refl
split-Free c (x ∷ s) h = ground (arith, h, split-Free c s)

split-append :
    (c : ℕ) (s t : Str) → Free c s → split c (s ++ c ∷ t) ≡ (s, (split c t).0 ∷ (split c t).1)
unfolding split has_byte
split-append c [] t h = ground arith
split-append c (x ∷ s) t h = ground (arith, h, split-append c s t)

pub split-prefixed :
    (c : ℕ) (s : Str) (ps : List Str)
    → Free c s
    → All (Free c) ps
    → split c (s ++ prefixed c ps) ≡ (s, ps)
unfolding prefixed
split-prefixed c s [] h k = ap (split c) (append-nil s) ∙ split-Free c s h
split-prefixed c s (p ∷ ps) h k =
    ground (arith, split-append c s (p ++ prefixed c ps) h, split-prefixed c p ps k.0 k.1)

unquote-cons : (c : ℕ) (s : Str) → (c == 37) ≡ false → unquote (c ∷ s) ≡ c ∷ unquote s
unfolding unquote
unquote-cons c [] h = refl
unquote-cons c (a ∷ []) h = refl
unquote-cons c (a ∷ (b ∷ s)) h = ground (arith, h)

hex_value-hex_digit : (d : ℕ) → d < 16 → hex_value (hex_digit d) ≡ some d
hex_value-hex_digit d h = ground (arith, h)

unquote-escape :
    (c : ℕ) (s : Str)
    → c < 256
    → unquote (37 ∷ (hex_digit (c / 16) ∷ (hex_digit (c % 16) ∷ s))) ≡ c ∷ unquote s
unfolding unquote
unquote-escape c s h = ground (
  arith,
  hex_value-hex_digit (c / 16) (omega (arith, h)),
  hex_value-hex_digit (c % 16) (omega arith),
)

kept_plain : (safe : Str) (c : ℕ) → Free 37 safe → is_kept safe c ≡ true → (c == 37) ≡ false
kept_plain safe c h k = ground (arith, h, k)

pub unquote-quote :
    (safe s : Str) → Free 37 safe → All (λ c. c < 256) s → unquote (quote safe s) ≡ s
unfolding quote
unquote-quote safe [] h k = unfold unquote in refl
unquote-quote safe (c ∷ s) h k =
    let rest = unquote-quote safe s h k.1 in
    if_cases (is_kept safe c)
      (λ e. unquote-cons c (quote safe s) (kept_plain safe c h e) ∙ ap (λ t. c ∷ t) rest)
      (unquote-escape c (quote safe s) k.0 ∙ ap (λ t. c ∷ t) rest)
  where
    if_cases :
        (b : Bool)
        → (b ≡ true → unquote (c ∷ quote safe s) ≡ c ∷ s)
        → unquote (37 ∷ (hex_digit (c / 16) ∷ (hex_digit (c % 16) ∷ quote safe s))) ≡ c ∷ s
        → unquote (
            if b
            then c ∷ quote safe s
            else 37 ∷ (hex_digit (c / 16) ∷ (hex_digit (c % 16) ∷ quote safe s)))
          ≡ c ∷ s
    if_cases true yes_kept escaped = yes_kept refl
    if_cases false yes_kept escaped = escaped

read_from-digits : (f n : ℕ) (out : Str) → n < f → read_from 0 (digits f n out) ≡ read_from n out
unfolding digits
read_from-digits zero n out h = absurd (omega (arith, h))
read_from-digits (suc f) n out h =
    by_size (ltb n 10) refl (λ e. read_from-digits f (n / 10) ((48 + n % 10) ∷ out) e)
  where
    one : Str
    one = (48 + n % 10) ∷ out

    read_one : (m : ℕ) → m * 10 + n % 10 ≡ n → read_from m one ≡ read_from n out
    read_one m e = unfold read_from in ground (arith, e)

    by_size :
        (b : Bool)
        → ltb n 10 ≡ b
        → (n / 10 < f → read_from 0 (digits f (n / 10) one) ≡ read_from (n / 10) one)
        → read_from 0 (if b then one else digits f (n / 10) one) ≡ read_from n out
    by_size true e again = read_one 0 (ground (arith, e))
    by_size false e again = again (ground (arith, e, h)) ∙ read_one (n / 10) (omega arith)

-- There is a digit at least.
read_int-digits :
    (f n c : ℕ) (out : Str) → read_int (digits f n (c ∷ out)) ≡ read_from 0 (digits f n (c ∷ out))
unfolding digits read_int
read_int-digits zero n c out = refl
read_int-digits (suc f) n c out =
    if_elim (λ (s : Str). read_int s ≡ read_from 0 s) (ltb n 10) (λ _. refl)
      (λ _. read_int-digits f (n / 10) (48 + n % 10) (c ∷ out))

pub read_int-decimal : (n : ℕ) → read_int (decimal n) ≡ some n
read_int-decimal n =
    first ∙ (read_from-digits (suc n) n [] (omega arith) ∙ unfold read_from in refl)
  where
    first : read_int (digits (suc n) n []) ≡ read_from 0 (digits (suc n) n [])
    first =
        unfold digits read_int in
        if_elim (λ (s : Str). read_int s ≡ read_from 0 s) (ltb n 10) (λ _. refl)
          (λ _. read_int-digits n (n / 10) (48 + n % 10) [])

pub append-Free : (c : ℕ) (s t : Str) → Free c s → Free c t → Free c (s ++ t)
unfolding has_byte
append-Free c [] t h k = k
append-Free c (x ∷ s) t h k = ground (arith, h, append-Free c s t)

pub prefixed-Free :
    (c d : ℕ) (ps : List Str) → (d == c) ≡ false → All (Free c) ps → Free c (prefixed d ps)
unfolding prefixed has_byte
prefixed-Free c d [] other h = refl
prefixed-Free c d (p ∷ ps) other h =
    ground (arith, other, append-Free c p (prefixed d ps) h.0 (prefixed-Free c d ps other h.1))

pub digits-Free :
    (c f n : ℕ) (out : Str) → is_digit c ≡ false → Free c out → Free c (digits f n out)
unfolding digits has_byte
digits-Free c zero n out h k = k
digits-Free c (suc f) n out h k =
    let one = (48 + n % 10) ∷ out in
    if_elim (Free c) (ltb n 10) (λ _. ground (arith, h, k))
      (λ _. digits-Free c f (n / 10) one h (ground (arith, h, k)))

hex_digit_alnum :
    (c d : ℕ) → d < 16 → (is_digit c || is_alpha c) ≡ false → (hex_digit d == c) ≡ false
hex_digit_alnum c d h plain = ground (arith, h, plain)

tail_or : (P : Type 0) (c x : ℕ) (s : Str) → P ⊎ Free c (x ∷ s) → P ⊎ Free c s
unfolding has_byte
tail_or P c x s (inl k) = inl k
tail_or P c x s (inr k) = inr (ground (arith, k))

kept_differs :
    (safe : Str) (c x : ℕ) → is_kept safe c ≡ false → is_kept safe x ≡ true → (x == c) ≡ false
kept_differs safe c x k e = differ (x == c) refl
  where
    differ : (b : Bool) → (x == c) ≡ b → b ≡ false
    differ false q = refl
    differ true q = absurd (ground (arith, sym e ∙ (ap (is_kept safe) (same q) ∙ k)))
      where
        same : (x == c) ≡ true → x ≡ c
        same q = ground (arith, q)

head_differs :
    (safe : Str) (c x : ℕ) (s : Str)
    → (is_kept safe c ≡ false) ⊎ Free c (x ∷ s)
    → is_kept safe x ≡ true
    → (x == c) ≡ false
unfolding has_byte
head_differs safe c x s (inl k) e = kept_differs safe c x k e
head_differs safe c x s (inr k) e = ground (arith, k)

-- A byte that `quote` would escape, or that does not stand in the text, does not stand in what it
-- makes.
pub quote-Free :
    (c : ℕ) (safe s : Str)
    → (is_digit c || is_alpha c) ≡ false
    → (37 == c) ≡ false
    → All (λ x. x < 256) s
    → (is_kept safe c ≡ false) ⊎ Free c s
    → Free c (quote safe s)
unfolding quote has_byte
quote-Free c safe [] plain percent small h = refl
quote-Free c safe (x ∷ s) plain percent small h =
    let rest =
      quote-Free c safe s plain percent small.1 (tail_or (is_kept safe c ≡ false) c x s h) in
    if_elim (Free c) (is_kept safe x) (λ e. ground (arith, head_differs safe c x s h e, rest))
      (λ _. ground (
        arith,
        percent,
        rest,
        hex_digit_alnum c (x / 16) (omega (arith, small.0)) plain,
        hex_digit_alnum c (x % 16) (omega arith) plain,
      ))
