-- ===== src/Money/Currency.antt =====
-- pkg/money/currency.go: an ISO 4217 code, and Money, an int64 count of a currency's minor unit.
-- A currency is a supported code, or an unlisted one, which is only compared.
pub mod Laws
use gopayrollengine.Base.{
  ℕ, zero, suc, ◌≡◌, Bool, true, false, ◌&&◌, ◌||◌, List, [], ◌∷◌, if◌then◌else◌, ℕ_discrete,
}
use gopayrollengine.Base.Int.{ℤ, pos, ltb_ℤ, eqb_ℤ}
use gopayrollengine.Base.Int64.{max_int64, min_int64, add64, sub64, mul64, div64}
use gopayrollengine.Base.Result.{
  Result, ok, err, overflow, unknown_currency, currency_mismatch, ◌>>=◌, ◌>>◌, fail_if,
}
use gopayrollengine.Money.{Kobo}
use gopayrollengine.Money as Kobo

pub data Currency : Type 0 where
  ngn usd ghs kes zar xof gbp eur : Currency
  unlisted : ℕ → Currency

unfoldable pub Currency-discrete : Discrete Currency
Currency-discrete = hlevel ℕ_discrete

-- Go's `==` on two codes.
abbrev pub same_currency : Currency → Currency → Bool
same_currency c d = elim (Currency-discrete c d) [ yes e ↦ true | no ne ↦ false ]

unfoldable pub exponent : Currency → Result ℕ
exponent ngn = ok 2
exponent usd = ok 2
exponent ghs = ok 2
exponent kes = ok 2
exponent zar = ok 2
exponent gbp = ok 2
exponent eur = ok 2
exponent xof = ok 0
exponent (unlisted code) = err unknown_currency

unfoldable pub is_valid : Currency → Bool
unfolding exponent
is_valid c = elim (exponent c) [ ok e ↦ true | err e ↦ false ]

-- The loop of Scale: `rounds` more factors of ten.
unfoldable pub scale_from : ℤ → ℕ → ℤ
scale_from scale zero = scale
scale_from scale (suc rounds) = scale_from (mul64 scale (pos 10)) rounds

unfoldable pub scale : Currency → Result ℤ
unfolding exponent scale_from
scale c = exponent c >>= λ e. ok (scale_from (pos 1) e)

pub record Money : Type 0 where
  pub minor : ℤ
  pub currency : Currency

unfoldable pub new : ℤ → Currency → Result Money
new minor c =
    if is_valid c then ok (record { minor = minor; currency = c }) else err unknown_currency

unfoldable pub from_major : ℤ → Currency → Result Money
from_major major c = scale c >>= λ scale.
    if (if eqb_ℤ scale (pos 0)
      then false
      else (ltb_ℤ (div64 max_int64 scale) major || ltb_ℤ major (div64 min_int64 scale)))
    then err overflow
    else ok (record { minor = mul64 major scale; currency = c })

abbrev pub ngn_from_kobo : Kobo → Money
ngn_from_kobo k = record { minor = k; currency = ngn }

abbrev pub kobo_in : Currency → Kobo → Money
kobo_in c k = record { minor = k; currency = c }

unfoldable pub kobo : Money → Result Kobo
kobo m = if same_currency m.currency ngn then ok m.minor else err currency_mismatch

abbrev pub assert_same : Money → Money → Result (Unit {0})
assert_same m other =
    if same_currency m.currency other.currency then ok tt else err currency_mismatch

unfoldable pub add : Money → Money → Result Money
add m other =
    assert_same m other
    >> (let result = add64 m.minor other.minor in
        if ltb_ℤ (pos 0) other.minor && ltb_ℤ result m.minor
          || ltb_ℤ other.minor (pos 0) && ltb_ℤ m.minor result
        then err overflow
        else ok (record { minor = result; currency = m.currency }))

unfoldable pub sub : Money → Money → Result Money
sub m other =
    assert_same m other
    >> (let result = sub64 m.minor other.minor in
        if ltb_ℤ other.minor (pos 0) && ltb_ℤ result m.minor
          || ltb_ℤ (pos 0) other.minor && ltb_ℤ m.minor result
        then err overflow
        else ok (record { minor = result; currency = m.currency }))

unfoldable pub percent : Money → ℤ → ℤ → Result Money
percent m numerator denominator = Kobo.percent m.minor numerator denominator >>= λ k.
    ok (record { minor = k; currency = m.currency })

pub data Order : Type 0 where
  less equal greater : Order

unfoldable pub compare : Money → Money → Result Order
compare m other =
    assert_same m other
    >> (if ltb_ℤ m.minor other.minor
        then ok less
        else if ltb_ℤ other.minor m.minor
        then ok greater
        else ok equal)

abbrev pub is_positive : Money → Bool
is_positive m = ltb_ℤ (pos 0) m.minor

unfoldable pub sum_money_from : Money → List Money → Result Money
sum_money_from total [] = ok total
sum_money_from total (v ∷ values) = add total v >>= λ next. sum_money_from next values

unfoldable pub sum_money : List Money → Currency → Result Money
unfolding sum_money_from
sum_money values expected =
    if is_valid expected
    then sum_money_from (record { minor = pos 0; currency = expected }) values
    else err unknown_currency
