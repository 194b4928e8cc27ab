-- ===== src/Dependency/Tiers.antt =====
-- The tiers against each other (internal/services/ewa_dependency.go).
use gopayrollengine.Base.{ℕ, ◌≡◌, ap, ◌∙◌, ◌*◌, ◌^◌, ◌≤◌, ◌<◌, arith}
use gopayrollengine.Base.Int.{ℤ, pos, ◌≤ℤ◌, ◌<ℤ◌, ◌*ℤ◌}
use gopayrollengine.Base.Int64.{mul64, wrap64, wrap64-eq}
use gopayrollengine.Base.Result.{ok}
use gopayrollengine.Money as Kobo
use gopayrollengine.Money.{Kobo}
use gopayrollengine.Money.Percent.{percent_share}
use gopayrollengine.Store.{DependencyTier, strained, EwaPolicy}
use gopayrollengine.Dependency.{tier_for, tier_cap, tier_cooling_off, hours}

halved_cap :
    (cap : ℕ)
    → cap * 50 < 2 ^ 63
    → (q : ℕ) × (Kobo.percent (pos cap) (pos 50) (pos 100) ≡ ok (pos q)) × (q ≤ cap)
halved_cap cap h =
    percent_share cap 50 100 (omega arith) (omega arith) h (omega arith) (omega arith) (omega arith)

-- Above the emergency floor, a tier's cap lies between the floor and the policy's cap; where the
-- policy's cap is below the floor, every tier has the whole cap. The cap is not negative, and
-- fifty times it is an int64 value.
pub tier_cap_bounds :
    (tier : DependencyTier) (cap : ℕ) (policy : EwaPolicy)
    → cap * 50 < 2 ^ 63
    → (tier_cap tier (pos cap) policy ≤ℤ pos cap)
      × (policy.emergency_floor_kobo ≤ℤ pos cap
          → policy.emergency_floor_kobo ≤ℤ tier_cap tier (pos cap) policy)
      × (pos cap ≤ℤ policy.emergency_floor_kobo → tier_cap tier (pos cap) policy ≡ pos cap)
unfolding tier_cap
tier_cap_bounds tier cap policy h = let (q, e, le) = halved_cap cap h in ground (arith, e, le)

product_fits : (a b : ℕ) → a * b < 2 ^ 63 → mul64 (pos a) (pos b) ≡ pos (a * b)
unfolding mul64 ◌*ℤ◌
product_fits a b h = wrap64-eq (pos (a * b)) (omega arith, omega (arith, h))

-- Hours that do not overflow when they are doubled.
waits :
    (policy : EwaPolicy)
    → policy.cooling_off_hours * 7200000000000 < 2 ^ 63
    → (hours policy.cooling_off_hours ≡ pos (policy.cooling_off_hours * 3600000000000))
      × (mul64 (hours policy.cooling_off_hours) (pos 2)
          ≡ pos (policy.cooling_off_hours * 7200000000000))
unfolding hours
waits policy h =
    let once = product_fits policy.cooling_off_hours 3600000000000 (omega (arith, h)) in
    (
      once,
      ap (λ z. mul64 z (pos 2)) once
          ∙ product_fits (policy.cooling_off_hours * 3600000000000) 2 (omega (arith, h))
          ∙ ap pos (omega arith),
    )

-- A higher score never allows a larger draw, and never a shorter wait. This is for a policy's cap
-- that is not negative and fifty times which is an int64 value, and for a policy's wait of which
-- twice the nanoseconds are an int64 value, which no check of a policy sees to.
pub tier_for_antitone :
    (lower higher : ℤ) (cap : ℕ) (policy : EwaPolicy)
    → cap * 50 < 2 ^ 63
    → policy.cooling_off_hours * 7200000000000 < 2 ^ 63
    → lower ≤ℤ higher
    → (tier_cap (tier_for higher) (pos cap) policy ≤ℤ tier_cap (tier_for lower) (pos cap) policy)
      × (tier_cooling_off (tier_for lower) policy ≤ℤ tier_cooling_off (tier_for higher) policy)
unfolding tier_cap tier_for tier_cooling_off
tier_for_antitone lower higher cap policy h w le =
    let (q, e, qle) = halved_cap cap h in
    let (once, twice) = waits policy w in (ground (arith, e, qle), ground (arith, once, twice))

-- 1281024 hours, which UpdatePolicy accepts: a strained worker's wait is over before it begins.
strained_wraps :
    (policy : EwaPolicy)
    → policy.cooling_off_hours ≡ 1281024
    → tier_cooling_off strained policy <ℤ pos 0
unfolding tier_cooling_off hours mul64 wrap64 ◌*ℤ◌
strained_wraps policy e = rw e (omega arith)
