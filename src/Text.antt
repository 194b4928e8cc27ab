-- ===== src/Text.antt =====
-- Text as a list of code points, and what the code takes of Go's `strings` and `strconv`.
pub mod Digits
use gopayrollengine.Base.{
  ℕ, zero, suc, ◌+◌, ◌-◌, ◌*◌, ◌/◌, ◌%◌, Bool, true, false, not, ◌&&◌, ◌||◌, Option, none, some,
  List, [], ◌∷◌, ◌++◌, ltb, leb, ◌==◌, if◌then◌else◌,
}
use gopayrollengine.Base.Int.{ℤ, pos, negsuc, neg_ℕ}
use gopayrollengine.Base.Int64.{in_range}

abbrev pub Text : Type 0
Text = List ℕ

abbrev pub is_empty : Text → Bool
is_empty [] = true
is_empty (c ∷ s) = false

abbrev pub same_text : Text → Text → Bool
same_text [] [] = true
same_text [] (b ∷ t) = false
same_text (a ∷ s) [] = false
same_text (a ∷ s) (b ∷ t) = (a == b) && same_text s t

-- The text after a prefix; none where the text does not begin with it.
abbrev pub after_prefix : Text → Text → Option Text
after_prefix [] s = some s
after_prefix (c ∷ prefix) [] = none
after_prefix (c ∷ prefix) (d ∷ s) =
    let rest = after_prefix prefix s in if c == d then rest else none

-- Unicode's White_Space.
abbrev pub is_space : ℕ → Bool
is_space c =
    (leb 9 c && leb c 13)
    || c == 32
    || c == 133
    || c == 160
    || c == 5760
    || (leb 8192 c && leb c 8202)
    || c == 8232
    || c == 8233
    || c == 8239
    || c == 8287
    || c == 12288

abbrev pub trim_left : Text → Text
trim_left [] = []
trim_left (c ∷ s) = let rest = trim_left s in if is_space c then rest else c ∷ s

abbrev pub trim_right : Text → Text
trim_right [] = []
trim_right (c ∷ s) = let rest = trim_right s in if is_empty rest && is_space c then [] else c ∷ rest

-- strings.TrimSpace
unfoldable pub trim_space : Text → Text
trim_space s = trim_right (trim_left s)

abbrev pub is_digit : ℕ → Bool
is_digit c = leb 48 c && leb c 57

-- The value of the digits, after those that gave `value`; none at another character.
unfoldable pub value_from : ℕ → Text → Option ℕ
value_from value [] = some value
value_from value (c ∷ s) =
    let rest = value_from (10 * value + (c - 48)) s in if is_digit c then rest else none

unfoldable pub parse_digits : Text → Option ℕ
parse_digits s = if is_empty s then none else value_from 0 s

abbrev pub minus : ℕ
minus = 45

abbrev pub plus : ℕ
plus = 43

abbrev within_int64 : ℤ → Option ℤ
within_int64 z = if in_range z then some z else none

abbrev pub signed_digits : (ℕ → ℤ) → Option ℕ → Option ℤ
signed_digits sign none = none
signed_digits sign (some n) = within_int64 (sign n)

-- strconv.ParseInt(s, 10, 64): an optional sign and at least one digit, within an int64.
unfoldable pub parse_int : Text → Option ℤ
parse_int [] = none
parse_int (c ∷ s) =
    if c == minus
    then signed_digits neg_ℕ (parse_digits s)
    else if c == plus
    then signed_digits pos (parse_digits s)
    else signed_digits pos (parse_digits (c ∷ s))

-- The digits of a number, put before others.
unfoldable pub digits_from : ℕ → ℕ → Text → Text
digits_from zero n others = others
digits_from (suc fuel) n others = elim (n / 10 == 0) [
  | true ↦ (48 + n % 10) ∷ others
  | false ↦ digits_from fuel (n / 10) ((48 + n % 10) ∷ others)
]

-- Twenty digits hold every 64-bit number.
unfoldable pub format_nat : ℕ → Text
format_nat n = digits_from 20 n []

-- strconv.FormatInt(z, 10)
unfoldable pub format_int : ℤ → Text
format_int (pos n) = format_nat n
format_int (negsuc n) = minus ∷ format_nat (suc n)
