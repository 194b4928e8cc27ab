-- ===== src/Money/Currency/Laws.antt =====
-- The arithmetic of Money (pkg/money/currency.go).
use gopayrollengine.Base.{
  ◌≡◌, ap, List, [], ◌∷◌, if◌then◌else◌, true, arith, refl, map, subst, ◌∙◌, inl, inr, Bool-cases,
}
use gopayrollengine.Base.Int.{ℤ, pos, ◌+ℤ◌, ◌-ℤ◌, ◌*ℤ◌, quot, int_laws, pos_part, neg_part}
use gopayrollengine.Base.Int64.{InRange, in_range, wrap64, add64, sub64, mul64, div64}
use gopayrollengine.Base.Lists.{All}
use gopayrollengine.Base.Result.{
  ok, err, overflow, currency_mismatch, unknown_currency, >>=-eq-ok, ok-injective,
}
use gopayrollengine.Money.Add.{total}
use gopayrollengine.Money.Currency.{
  Currency, Money, add, sub, sum_money, sum_money_from, from_major, same_currency, is_valid, scale,
}

-- Money.Add of two amounts in one currency is their sum if that is an int64 value, else
-- ErrOverflow; of amounts in two currencies it is ErrCurrencyMismatch.
pub add-exact :
    (m n : Money)
    → InRange m.minor
    → InRange n.minor
    → add m n ≡ (
        if same_currency m.currency n.currency
        then (if in_range (m.minor +ℤ n.minor)
            then ok (record { minor = m.minor +ℤ n.minor; currency = m.currency })
            else err overflow)
        else err currency_mismatch)
unfolding add add64 wrap64 ◌+ℤ◌
add-exact m n hm hn = ground arith

pub sub-exact :
    (m n : Money)
    → InRange m.minor
    → InRange n.minor
    → sub m n ≡ (
        if same_currency m.currency n.currency
        then (if in_range (m.minor -ℤ n.minor)
            then ok (record { minor = m.minor -ℤ n.minor; currency = m.currency })
            else err overflow)
        else err currency_mismatch)
unfolding sub sub64 wrap64 ◌-ℤ◌
sub-exact m n hm hn = ground arith

-- The number of minor units in a major unit.
abbrev pub unit : Currency → ℤ
unit Currency.xof = pos 1
unit _ = pos 100

-- FromMajor of a supported currency is the exact number of minor units if that is an int64
-- value, else ErrOverflow.
pub from_major-exact :
    (major : ℤ) (c : Currency)
    → InRange major
    → is_valid c ≡ true
    → from_major major c ≡ (
        if in_range (major *ℤ unit c)
        then ok (record { minor = major *ℤ unit c; currency = c })
        else err overflow)
unfolding from_major scale mul64 div64 wrap64 ◌*ℤ◌ quot is_valid
from_major-exact major c h v = ground arith

-- A sum that Money.Add returns is exact, in range, and in the currency of both amounts.
pub add-ok :
    (m n : Money) {r : Money}
    → InRange m.minor
    → InRange n.minor
    → add m n ≡ ok r
    → (n.currency ≡ m.currency)
      × (r.minor ≡ m.minor +ℤ n.minor)
      × (r.currency ≡ m.currency)
      × InRange r.minor
unfolding add add64 wrap64 ◌+ℤ◌
add-ok m n hm hn h = ground arith

sum_money_from-total :
    (acc : Money) (values : List Money) {t : Money}
    → InRange acc.minor
    → All (λ v. InRange v.minor) values
    → sum_money_from acc values ≡ ok t
    → (t.minor ≡ acc.minor +ℤ total (map (λ v. v.minor) values))
      × (t.currency ≡ acc.currency)
      × All (λ v. v.currency ≡ acc.currency) values
unfolding sum_money_from
sum_money_from-total acc [] ha hv h = rw (← ok-injective h) (omega int_laws, refl, tt)
sum_money_from-total acc (v ∷ values) ha hv h =
    let (next, e, rest) = >>=-eq-ok (add acc v) (λ next. sum_money_from next values) h in
    let (same, e', cur, inside) = add-ok acc v ha hv.0 e in
    let (sum_e, sum_c, others) = sum_money_from-total next values inside hv.1 rest in
    (
      rw sum_e (omega (int_laws, ap pos_part e', ap neg_part e')),
      sum_c ∙ cur,
      (same, subst (λ c. All (λ v. v.currency ≡ c) values) cur others),
    )

-- A total that SumMoney returns is the exact sum of amounts that are all in the expected currency.
sum_money-total :
    (values : List Money) (expected : Currency) {t : Money}
    → All (λ v. InRange v.minor) values
    → sum_money values expected ≡ ok t
    → (t.minor ≡ total (map (λ v. v.minor) values))
      × (t.currency ≡ expected)
      × All (λ v. v.currency ≡ expected) values
unfolding sum_money
sum_money-total values expected hv h = elim (Bool-cases (is_valid expected)) [
  | inl valid ↦
      let (e, c, others) =
        sum_money_from-total (record { minor = pos 0; currency = expected }) values
          (omega arith, omega arith) hv (rw valid at h) in
      (rw e (omega int_laws), c, others)
  | inr invalid ↦ absurd (let bad : err unknown_currency ≡ ok _ = rw invalid at h in cc)
]
