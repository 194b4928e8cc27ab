-- ===== src/Money.antt =====
-- pkg/money/money.go: Kobo, an int64 count of minor units. Theorems are in the children.
pub mod Add
pub mod Currency
pub mod Mul
pub mod Percent
pub mod Text
use gopayrollengine.Base.{
  ℕ, ◌≡◌, Bool, true, false, ◌&&◌, ◌||◌, List, [], ◌∷◌, ◌==◌, ◌%◌, Option, none, some,
  if◌then◌else◌,
}
use gopayrollengine.Base.Int.{ℤ, pos, negsuc, ltb_ℤ, leb_ℤ, eqb_ℤ, quot, rem}
use gopayrollengine.Base.Int64.{max_int64, min_int64, add64, sub64, mul64, div64}
use gopayrollengine.Base.Result.{Result, ok, err, overflow, division_by_zero, ◌>>=◌}

abbrev pub Kobo : Type 0
Kobo = ℤ

abbrev pub kobo_per_naira : ℤ
kobo_per_naira = pos 100

unfoldable pub from_naira : ℤ → Kobo
from_naira naira = mul64 naira kobo_per_naira

unfoldable pub from_naira_checked : ℤ → Result Kobo
from_naira_checked naira =
    if ltb_ℤ (quot max_int64 kobo_per_naira) naira || ltb_ℤ naira (quot min_int64 kobo_per_naira)
    then err overflow
    else ok (mul64 naira kobo_per_naira)

unfoldable pub add : Kobo → Kobo → Result Kobo
add k other =
    let result = add64 k other in
    if ltb_ℤ (pos 0) other && ltb_ℤ result k || ltb_ℤ other (pos 0) && ltb_ℤ k result
    then err overflow
    else ok result

-- `none` is the panic.
unfoldable pub must_add : Kobo → Kobo → Option Kobo
must_add k other = elim (add k other) [ ok r ↦ some r | err e ↦ none ]

unfoldable pub sub : Kobo → Kobo → Result Kobo
sub k other =
    let result = sub64 k other in
    if ltb_ℤ other (pos 0) && ltb_ℤ result k || ltb_ℤ (pos 0) other && ltb_ℤ k result
    then err overflow
    else ok result

unfoldable pub mul_int : Kobo → ℤ → Result Kobo
mul_int k n =
    if eqb_ℤ k (pos 0) || eqb_ℤ n (pos 0)
    then ok (pos 0)
    else let result = mul64 k n in if eqb_ℤ (div64 result n) k then ok result else err overflow

-- The `switch` that rounds the quotient q with remainder r to the nearest, ties to even.
unfoldable pub round_half_even : ℤ → ℤ → ℤ → ℤ
round_half_even q r denominator =
    let twice_r = mul64 (pos 2) r in
    let away = if ltb_ℤ (pos 0) r then add64 q (pos 1) else sub64 q (pos 1) in
    if ltb_ℤ denominator twice_r || ltb_ℤ twice_r (sub64 (pos 0) denominator)
    then away
    else if eqb_ℤ twice_r denominator || eqb_ℤ twice_r (sub64 (pos 0) denominator)
    then if eqb_ℤ (rem q (pos 2)) (pos 0) then q else away
    else q

unfoldable pub percent : Kobo → ℤ → ℤ → Result Kobo
unfolding round_half_even
percent k numerator denominator =
    if eqb_ℤ denominator (pos 0)
    then err division_by_zero
    else mul_int k numerator >>= λ scaled.
        ok (round_half_even (div64 scaled denominator) (rem scaled denominator) denominator)

abbrev pub is_zero : Kobo → Bool
is_zero k = eqb_ℤ k (pos 0)

abbrev pub is_positive : Kobo → Bool
is_positive k = ltb_ℤ (pos 0) k

abbrev pub is_negative : Kobo → Bool
is_negative k = ltb_ℤ k (pos 0)

unfoldable pub sum_from : Kobo → List Kobo → Result Kobo
sum_from total [] = ok total
sum_from total (v ∷ values) = add total v >>= λ next. sum_from next values

unfoldable pub sum : List Kobo → Result Kobo
unfolding sum_from
sum values = sum_from (pos 0) values
