-- ===== src/Text/Decimal.antt =====
-- Decimal numerals of integers.
use redis_api.Common.{
  ℕ, zero, suc, ◌+◌, ◌-◌, ◌*◌, ◌/◌, ◌%◌, ◌<◌, ◌≡◌, refl, ◌∙◌, ap, Bool, true, ◌&&◌, ◌||◌, Option,
  none, some, [], ◌∷◌, arith, ltb, leb, ◌==◌, if◌then◌else◌, Bool-cases, inl, inr,
}
use redis_api.Common.Int.{ℤ, pos, negsuc}
use redis_api.Text.Defs.{Str}

abbrev is_digit : ℕ → Bool
is_digit c = leb b'0' c && leb c b'9'

-- The digits of `n` in front of `rest`; the fuel is at least the number of digits.
digits : ℕ → ℕ → Str → Str
digits zero n rest = rest
digits (suc f) n rest =
    let more = digits f (n / 10) ((b'0' + n % 10) ∷ rest) in
    if ltb n 10 then (b'0' + n) ∷ rest else more

-- `String(n)` of a number that is a natural
unfoldable pub show : ℕ → Str
unfolding digits
show n = digits (suc n) n []

unfoldable pub show_ℤ : ℤ → Str
unfolding show
show_ℤ (pos n) = show n
show_ℤ (negsuc n) = b'-' ∷ show (n + 1)

-- All of the text is digits.
read_digits : ℕ → Str → Option ℕ
read_digits n [] = some n
read_digits n (c ∷ s) = if is_digit c then read_digits (n * 10 + (c - b'0')) s else none

read_digits1 : Str → Option ℕ
unfolding read_digits
read_digits1 [] = none
read_digits1 (c ∷ s) = read_digits 0 (c ∷ s)

abbrev as_pos : Option ℕ → Option ℤ
as_pos none = none
as_pos (some n) = some (pos n)

abbrev as_neg : Option ℕ → Option ℤ
as_neg none = none
as_neg (some zero) = some (pos 0)
as_neg (some (suc n)) = some (negsuc n)

-- A decimal integer with an optional minus sign: what INCR and DECR accept, and `tonumber` on such.
unfoldable pub read_ℤ : Str → Option ℤ
unfolding read_digits1
read_ℤ [] = none
read_ℤ (c ∷ s) = if c == b'-' then as_neg (read_digits1 s) else as_pos (read_digits1 (c ∷ s))

-- `parseInt(s, 10)` from its first character: the digits of the longest prefix, `none` is NaN.
prefix_digits : Option ℕ → Str → Option ℕ
prefix_digits n [] = n
prefix_digits none (c ∷ s) = if is_digit c then prefix_digits (some (c - b'0')) s else none
prefix_digits (some n) (c ∷ s) =
    if is_digit c then prefix_digits (some (n * 10 + (c - b'0'))) s else some n

signed_prefix : Str → Option ℤ
unfolding prefix_digits
signed_prefix [] = none
signed_prefix (c ∷ s) =
    if c == b'-'
    then as_neg (prefix_digits none s)
    else if c == b'+'
    then as_pos (prefix_digits none s)
    else as_pos (prefix_digits none (c ∷ s))

-- ASCII white space is skipped; the other white space of Unicode is not modelled.
unfoldable pub parse_int : Str → Option ℤ
unfolding signed_prefix
parse_int [] = none
parse_int (c ∷ s) = if c == 32 || (leb 9 c && leb c 13) then parse_int s else signed_prefix (c ∷ s)

record StartsWithDigit (s : Str) : Type 0 where
  first : ℕ
  others : Str
  split : s ≡ first ∷ others
  digit : is_digit first ≡ true

digits-StartsWithDigit : (f n : ℕ) (rest : Str) → n < f → StartsWithDigit (digits f n rest)
unfolding digits
digits-StartsWithDigit zero n rest h = elim h [ ]
digits-StartsWithDigit (suc f) n rest h = elim (Bool-cases (ltb n 10)) [
  | inl small ↦
      rw small (record { first = b'0' + n; others = rest; split = refl; digit = ground arith })
  | inr big ↦ rw big (digits-StartsWithDigit f (n / 10) ((b'0' + n % 10) ∷ rest) (ground arith))
]

read-digits : (f n : ℕ) (rest : Str) → n < f → read_digits 0 (digits f n rest) ≡ read_digits n rest
unfolding digits read_digits
read-digits zero n rest h = elim h [ ]
read-digits (suc f) n rest h = ground (arith, read-digits f (n / 10) ((b'0' + n % 10) ∷ rest))

prefix-digits :
    (f n : ℕ) (rest : Str)
    → n < f
    → prefix_digits none (digits f n rest) ≡ prefix_digits (some n) rest
unfolding digits prefix_digits
prefix-digits zero n rest h = elim h [ ]
prefix-digits (suc f) n rest h = ground (arith, prefix-digits f (n / 10) ((b'0' + n % 10) ∷ rest))

show-StartsWithDigit : (n : ℕ) → StartsWithDigit (show n)
unfolding show
show-StartsWithDigit n = digits-StartsWithDigit (suc n) n [] (omega arith)

-- On a text that starts with a digit there is no sign and no space to skip.
read_ℤ_unsigned : (s : Str) → StartsWithDigit s → read_ℤ s ≡ as_pos (read_digits 0 s)
unfolding read_ℤ
read_ℤ_unsigned s d = rw d.split (ground (arith, d.digit))

parse_int_unsigned : (s : Str) → StartsWithDigit s → parse_int s ≡ as_pos (prefix_digits none s)
unfolding parse_int signed_prefix
parse_int_unsigned s d = rw d.split (ground (arith, d.digit))

-- Reading a printed number gives it back.
pub read_ℤ-show : (n : ℕ) → read_ℤ (show n) ≡ some (pos n)
unfolding show read_digits
read_ℤ-show n =
    read_ℤ_unsigned (show n) (show-StartsWithDigit n)
    ∙ ap as_pos (read-digits (suc n) n [] (omega arith))

-- So does `parseInt`.
pub parse_int-show : (n : ℕ) → parse_int (show n) ≡ some (pos n)
unfolding show prefix_digits
parse_int-show n =
    parse_int_unsigned (show n) (show-StartsWithDigit n)
    ∙ ap as_pos (prefix-digits (suc n) n [] (omega arith))
