-- ===== src/Advance/Remaining.antt =====
-- RemainingKobo (internal/models/ewa.go) of an advance.
use gopayrollengine.Base.{◌≡◌, if◌then◌else◌, arith}
use gopayrollengine.Base.Int.{pos, ◌-ℤ◌, ◌≤ℤ◌, leb_ℤ}
use gopayrollengine.Base.Int64.{InRange}
use gopayrollengine.Money.Add.{sub-exact}
use gopayrollengine.Store.{EwaAdvance}
use gopayrollengine.Advance.{remaining_kobo}

-- The amounts of a row: int64 values, and what is recovered is not negative.
pub record HasAmounts (a : EwaAdvance) : Type 0 where
  pub amount : InRange a.amount_kobo
  pub recovered : InRange a.recovered_kobo
  pub amount_nonneg : pos 0 ≤ℤ a.amount_kobo
  pub recovered_nonneg : pos 0 ≤ℤ a.recovered_kobo

-- What remains is the amount less what is recovered, and zero where more was recovered.
pub remaining_kobo-exact :
    (a : EwaAdvance)
    → HasAmounts a
    → remaining_kobo a
      ≡ (if leb_ℤ a.recovered_kobo a.amount_kobo then a.amount_kobo -ℤ a.recovered_kobo else pos 0)
unfolding remaining_kobo ◌-ℤ◌
remaining_kobo-exact a h =
    ground (arith, sub-exact a.amount_kobo a.recovered_kobo h.amount h.recovered)

-- What remains of an advance is an int64 value that is neither negative nor more than its amount,
-- for amounts that are int64 values and not negative.
pub remaining_kobo_bounds :
    (a : EwaAdvance)
    → HasAmounts a
    → (pos 0 ≤ℤ remaining_kobo a) × (remaining_kobo a ≤ℤ a.amount_kobo) × InRange (remaining_kobo a)
unfolding ◌-ℤ◌
remaining_kobo_bounds a h = ground (arith, remaining_kobo-exact a h)
