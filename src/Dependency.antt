-- ===== src/Dependency.antt =====
-- internal/services/ewa_dependency.go: the tiers of a dependency score, and what a tier does to
-- the draw cap and to the wait between draws.
pub mod Tiers
use gopayrollengine.Base.{ℕ, if◌then◌else◌, Option, none, some}
use gopayrollengine.Base.Int.{ℤ, pos, ltb_ℤ, leb_ℤ}
use gopayrollengine.Base.Int64.{mul64}
use gopayrollengine.Base.Result.{ok, err}
use gopayrollengine.Money as Kobo
use gopayrollengine.Money.{Kobo}
use gopayrollengine.Store.{DependencyTier, healthy, elevated, strained, dependent, EwaPolicy}

unfoldable pub tier_for : ℤ → DependencyTier
tier_for score =
    if leb_ℤ (pos 80) score
    then dependent
    else if leb_ℤ (pos 60) score
    then strained
    else if leb_ℤ (pos 35) score
    then elevated
    else healthy

unfoldable pub tier_cap : DependencyTier → Kobo → EwaPolicy → Kobo
tier_cap dependent policy_cap policy =
    if ltb_ℤ policy.emergency_floor_kobo policy_cap then policy.emergency_floor_kobo else policy_cap
tier_cap strained policy_cap policy = elim (Kobo.percent policy_cap (pos 50) (pos 100)) [
  | err e ↦ policy.emergency_floor_kobo
  | ok halved ↦
      if ltb_ℤ halved policy.emergency_floor_kobo
      then if ltb_ℤ policy.emergency_floor_kobo policy_cap
        then policy.emergency_floor_kobo
        else policy_cap
      else halved
]
tier_cap _ policy_cap policy = policy_cap

-- A number of hours as a time.Duration: int64 nanoseconds, whose product wraps around.
unfoldable pub hours : ℕ → ℤ
unfolding mul64
hours n = mul64 (pos n) (pos 3600000000000)

unfoldable pub tier_cooling_off : DependencyTier → EwaPolicy → ℤ
unfolding mul64 hours
tier_cooling_off strained policy = mul64 (hours policy.cooling_off_hours) (pos 2)
tier_cooling_off dependent policy = mul64 (hours policy.cooling_off_hours) (pos 2)
tier_cooling_off _ policy = hours policy.cooling_off_hours

-- The texts of the nudges, by the tier that each is for.
pub data Nudge : Type 0 where
  bit_more_than_usual limit_reduced emergency_amount : Nudge

unfoldable pub tier_nudge : DependencyTier → Option Nudge
tier_nudge elevated = some bit_more_than_usual
tier_nudge strained = some limit_reduced
tier_nudge dependent = some emergency_amount
tier_nudge healthy = none
