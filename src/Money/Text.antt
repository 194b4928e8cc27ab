-- ===== src/Money/Text.antt =====
-- The text forms of pkg/money/money.go and pkg/money/currency.go: decimal naira, the JSON codec,
-- and the separators of a printed amount. What encoding/json and strconv.ParseFloat give on the
-- forms that the code does not read itself are arguments.
pub mod Codec
use gopayrollengine.Base.{
  ℕ, zero, suc, ◌+◌, ◌-◌, ◌%◌, Bool, true, false, not, ◌&&◌, ◌||◌, Option, none, some, List, [],
  ◌∷◌, ◌++◌, ltb, ◌==◌, if◌then◌else◌,
}
use gopayrollengine.Base.Int.{ℤ, pos, ltb_ℤ, quot, rem}
use gopayrollengine.Base.Int64.{max_int64, add64, sub64, mul64, div64}
use gopayrollengine.Base.Lists.{length}
use gopayrollengine.Base.Result.{Result, ok, err, overflow, invalid_format, ◌>>=◌, fail_if, ◌>>◌}
use gopayrollengine.Money.{Kobo, kobo_per_naira}
use gopayrollengine.Money.Currency.{Currency, Money, exponent, scale}
use gopayrollengine.Text.{Text, is_empty, trim_space, minus, parse_int, format_int}

abbrev pub point : ℕ
point = 46

abbrev pub has_sign : Text → Bool
has_sign [] = false
has_sign (c ∷ s) = c == minus

abbrev pub without_sign : Text → Text
without_sign [] = []
without_sign (c ∷ s) = if c == minus then s else c ∷ s

-- strings.SplitN(s, ".", 2): what precedes the first point, and what follows it.
abbrev pub before_point : Text → Text
before_point [] = []
before_point (c ∷ s) = let rest = before_point s in if c == point then [] else c ∷ rest

abbrev pub after_point : Text → Option Text
after_point [] = none
after_point (c ∷ s) = let rest = after_point s in if c == point then some s else rest

abbrev pub or_invalid : Option ℤ → Result ℤ
or_invalid none = err invalid_format
or_invalid (some n) = ok n

-- The loop that pads a fraction with zeros to its width, which has `left` rounds to go.
abbrev pub pad_zeros : ℕ → Text → Text
pad_zeros zero s = s
pad_zeros (suc left) s = pad_zeros left (s ++ 48 ∷ [])

-- The minor units of a fraction of at most `width` digits.
unfoldable pub fraction_of : ℕ → Option Text → Result ℤ
fraction_of width none = ok (pos 0)
fraction_of width (some frac) =
    if length frac == 0 || ltb width (length frac)
    then err invalid_format
    else or_invalid (parse_int (pad_zeros (width - length frac) frac))

-- The test before the scaling, and the sign.
unfoldable pub scaled_total : Bool → ℤ → ℤ → ℤ → Result ℤ
scaled_total negative unit whole fraction =
    let total = add64 (mul64 whole unit) fraction in
    if ltb_ℤ (div64 (sub64 max_int64 fraction) unit) whole
    then err overflow
    else ok (if negative then sub64 (pos 0) total else total)

unfoldable pub from_naira_string : Text → Result Kobo
unfolding trim_space fraction_of scaled_total
from_naira_string text =
    let s = trim_space text in
    let unsigned = without_sign s in
    if is_empty s
    then err invalid_format
    else or_invalid (parse_int (before_point unsigned)) >>= λ whole.
        fraction_of 2 (after_point unsigned) >>= λ fraction.
        scaled_total (has_sign s) kobo_per_naira whole fraction

-- The checks of a fraction in a currency: one without minor units admits none.
unfoldable pub money_fraction : ℕ → Option Text → Result ℤ
unfolding fraction_of
money_fraction exp none = ok (pos 0)
money_fraction exp (some frac) =
    if exp == 0 then err invalid_format else fraction_of exp (some frac)

unfoldable pub parse_money : Text → Currency → Result Money
unfolding trim_space money_fraction scaled_total
parse_money text c = exponent c >>= λ exp.
    let s = trim_space text in
    let unsigned = without_sign s in
    if is_empty s
    then err invalid_format
    else or_invalid (parse_int (before_point unsigned)) >>= λ whole.
        money_fraction exp (after_point unsigned) >>= λ fraction. scale c >>= λ unit.
        scaled_total (has_sign s) unit whole fraction >>= λ minor.
        ok (record { minor = minor; currency = c })

unfoldable pub marshal_json : Kobo → Text
marshal_json k = format_int k

-- strings.ContainsAny(s, ".eE")
abbrev pub is_float_form : Text → Bool
is_float_form [] = false
is_float_form (c ∷ s) = (c == point || c == 101 || c == 69) || is_float_form s

-- `unquote` is json.Unmarshal into a string, and `integral` the int64 of a float that
-- strconv.ParseFloat reads and that equals its floor.
unfoldable pub unmarshal_json : (Text → Option Text) → (Text → Option ℤ) → Text → Result Kobo
unfolding from_naira_string
unmarshal_json unquote integral [] = err invalid_format
unmarshal_json unquote integral (c ∷ s) =
    if c == 34
    then elim (unquote (c ∷ s)) [ none ↦ err invalid_format | some text ↦ from_naira_string text ]
    else if is_float_form (c ∷ s)
    then or_invalid (integral (c ∷ s))
    else or_invalid (parse_int (c ∷ s))

-- The loop over the groups of three, with a comma before each that is not the first of them; a
-- shorter group is never reached.
unfoldable pub comma_groups : Text → Text
comma_groups (a ∷ b ∷ c ∷ []) = a ∷ b ∷ c ∷ []
comma_groups (a ∷ b ∷ c ∷ d ∷ rest) = a ∷ b ∷ c ∷ 44 ∷ comma_groups (d ∷ rest)
comma_groups s = s

-- The first `left` characters, the comma that follows them if more are to come, and the groups.
unfoldable pub after_leading : ℕ → Text → Text
unfolding comma_groups
after_leading zero s = comma_groups s
after_leading (suc left) [] = []
after_leading (suc zero) (c ∷ s) = c ∷ (if is_empty s then [] else 44 ∷ comma_groups s)
after_leading (suc (suc left)) (c ∷ s) = c ∷ after_leading (suc left) s

unfoldable pub with_thousands_sep : ℤ → Text
unfolding after_leading
with_thousands_sep n =
    let s = format_int n in if ltb 3 (length s) then after_leading (length s % 3) s else s

-- The verb %02d.
abbrev pub two_digits : ℤ → Text
two_digits n = let s = format_int n in if ltb (length s) 2 then 48 ∷ s else s

abbrev pub naira_sign : ℕ
naira_sign = 8358

unfoldable pub string : Kobo → Text
unfolding with_thousands_sep
string k =
    let negative = ltb_ℤ k (pos 0) in
    let magnitude = if negative then sub64 (pos 0) k else k in
    let digits =
      with_thousands_sep (quot magnitude kobo_per_naira)
      ++ point ∷ two_digits (rem magnitude kobo_per_naira) in
    if negative then minus ∷ naira_sign ∷ digits else naira_sign ∷ digits
