-- ===== src/Tests/Money.antt =====
-- The properties of pkg/money, and of the pure rules of the services, at concrete inputs.
use gopayrollengine.Base.{
  ◌≡◌, refl, ◌+◌, ◌*◌, ◌<◌, ◌≤◌, List, [], ◌∷◌, arith, if◌then◌else◌, true, false, none,
}
use gopayrollengine.Base.Int.{pos, negsuc, ◌+ℤ◌, ◌*ℤ◌, ◌≤ℤ◌, ◌<ℤ◌}
use gopayrollengine.Base.Int64.{InRange, in_range}
use gopayrollengine.Base.Result.{ok, err, overflow}
use gopayrollengine.Money as Kobo
use gopayrollengine.Money.{Kobo}
use gopayrollengine.Money.Add.{add-exact, sum-total, total}
use gopayrollengine.Money.Mul.{mul_int-exact}
use gopayrollengine.Money.Percent.{percent-IsNearest, IsNearest}
use gopayrollengine.Money.Currency.{usd, from_major, sum_money, Money}
use gopayrollengine.Money.Currency.Laws.{from_major-exact, unit}
use gopayrollengine.Store.{EwaPolicy, strained, disbursed}
use gopayrollengine.Advance.Remaining.{HasAmounts}
use gopayrollengine.Dependency.{tier_cap, tier_for, tier_cooling_off}
use gopayrollengine.Dependency.Tiers.{tier_cap_bounds, tier_for_antitone}
use gopayrollengine.Request.{under_floor, decide, Eligibility, healthy_so_far}
use gopayrollengine.Request.Limits.{under_floor-protects, decide-approves}
use gopayrollengine.Tests.{advance_of}
use gopayrollengine.Base.Lists.{All}

add-exact_example :
    Kobo.add (pos 2) (negsuc 4)
    ≡ (if in_range (pos 2 +ℤ negsuc 4) then ok (pos 2 +ℤ negsuc 4) else err overflow)
add-exact_example =
    add-exact (pos 2) (negsuc 4) (omega arith, omega arith) (omega arith, omega arith)

mul_int-exact_example :
    Kobo.mul_int (pos 6) (pos 7)
    ≡ (if in_range (pos 6 *ℤ pos 7) then ok (pos 6 *ℤ pos 7) else err overflow)
mul_int-exact_example =
    mul_int-exact (pos 6) (pos 7) (omega arith, omega arith) (omega arith, omega arith)
      (λ w. ground arith)

product_fits : InRange (pos 250 *ℤ pos 30)
unfolding ◌*ℤ◌
product_fits = (omega arith, omega arith)

percent-IsNearest_example :
    (q : Kobo) × (Kobo.percent (pos 250) (pos 30) (pos 100) ≡ ok q)
    × IsNearest q (pos 250 *ℤ pos 30) 100
percent-IsNearest_example =
    percent-IsNearest (pos 250) (pos 30) 100 (omega arith, omega arith) (omega arith, omega arith)
      product_fits (omega arith) (omega arith)

abbrev two_values : List Kobo
two_values = pos 5 ∷ pos 9 ∷ []

values_fit : All InRange two_values
values_fit = ((omega arith, omega arith), ((omega arith, omega arith), tt))

total_fits : InRange (total two_values)
unfolding ◌+ℤ◌
total_fits = (omega arith, omega arith)

summed : Kobo.sum two_values ≡ ok (pos 14)
unfolding Kobo.sum Kobo.add gopayrollengine.Base.Int64.add64 gopayrollengine.Base.Int64.wrap64 ◌+ℤ◌
summed = refl

sum-total_example : (pos 14 ≡ total two_values) × InRange (pos 14)
sum-total_example = sum-total two_values values_fit summed

from_major-exact_example : from_major (pos 12) usd ≡ (
    if in_range (pos 12 *ℤ unit usd)
    then ok (record { minor = pos 12 *ℤ unit usd; currency = usd })
    else err overflow)
from_major-exact_example = from_major-exact (pos 12) usd (omega arith, omega arith) valid
  where
    valid : gopayrollengine.Money.Currency.is_valid usd ≡ true
    valid = unfold gopayrollengine.Money.Currency.is_valid in refl

abbrev two_amounts : List Money
two_amounts =
    record { minor = pos 5; currency = usd } ∷ record { minor = pos 9; currency = usd } ∷ []

summed_money : sum_money two_amounts usd ≡ ok (record { minor = pos 14; currency = usd })
unfolding sum_money gopayrollengine.Money.Currency.is_valid gopayrollengine.Money.Currency.add
    gopayrollengine.Money.Currency.Currency-discrete gopayrollengine.Base.Int64.add64
    gopayrollengine.Base.Int64.wrap64 ◌+ℤ◌
summed_money = refl

has_amounts : HasAmounts (advance_of 1 disbursed 5000)
has_amounts = record {
  amount = (omega arith, omega arith);
  recovered = (omega arith, omega arith);
  amount_nonneg = omega arith;
  recovered_nonneg = omega arith;
}

abbrev policy : EwaPolicy
policy = record {
  enabled = true;
  max_accrual_pct = pos 30;
  absolute_cap_kobo = pos 20000000;
  min_draw_kobo = pos 100000;
  max_draws_per_period = 4;
  cooling_off_hours = 24;
  emergency_floor_kobo = pos 500000;
  require_funding_coverage = false;
}

tier_cap_bounds_example :
    (tier_cap strained (pos 2000000) policy ≤ℤ pos 2000000)
    × (pos 500000 ≤ℤ pos 2000000 → pos 500000 ≤ℤ tier_cap strained (pos 2000000) policy)
    × (pos 2000000 ≤ℤ pos 500000 → tier_cap strained (pos 2000000) policy ≡ pos 2000000)
tier_cap_bounds_example = tier_cap_bounds strained 2000000 policy (omega arith)

tier_for_antitone_example :
    (tier_cap (tier_for (pos 85)) (pos 2000000) policy
      ≤ℤ tier_cap (tier_for (pos 40)) (pos 2000000) policy)
    × (tier_cooling_off (tier_for (pos 40)) policy ≤ℤ tier_cooling_off (tier_for (pos 85)) policy)
tier_for_antitone_example =
    tier_for_antitone (pos 40) (pos 85) 2000000 policy (omega arith) (omega arith) (omega arith)

under_floor-protects_example :
    (under_floor (pos 9000) (pos 5000) (pos 1000) (pos 8000) ≤ℤ pos 8000)
    × (pos 0 <ℤ under_floor (pos 9000) (pos 5000) (pos 1000) (pos 8000)
        → under_floor (pos 9000) (pos 5000) (pos 1000) (pos 8000) +ℤ pos 5000 +ℤ pos 1000
          ≤ℤ pos 9000)
under_floor-protects_example =
    under_floor-protects 9000 5000 1000 8000 (omega arith) (omega arith) (omega arith) (omega arith)

abbrev eligible : Eligibility
eligible = record {
  minimum_draw = pos 100;
  accrued_to_date = pos 9000;
  policy_cap = pos 3000;
  tier_cap = pos 3000;
  outstanding = pos 0;
  draws_this_period = 0;
  assessment = healthy_so_far;
  available = pos 3000;
  funding_bound = false;
  blocked = none;
  hardship_grant_suggested = false;
}

decide-approves_example :
    (decide eligible (pos 500) ≡ none
      → (eligible.blocked ≡ none) × (pos 100 ≤ℤ pos 500) × (pos 500 ≤ℤ pos 3000))
    × (eligible.blocked ≡ none
        → pos 100 ≤ℤ pos 500
        → pos 500 ≤ℤ pos 3000
        → decide eligible (pos 500) ≡ none)
decide-approves_example = decide-approves eligible (pos 500)
