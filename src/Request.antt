-- ===== src/Request.antt =====
-- internal/services/ewa_service.go: how much a worker may draw, and the decision.
-- What a worker has earned and the dependency assessment are given.
pub mod Limits
pub mod Record
use gopayrollengine.Base.{
  ℕ, ◌+◌, ◌*◌, Bool, true, false, not, ◌&&◌, Option, none, some, List, [], ◌∷◌, ltb, leb, ◌==◌,
  if◌then◌else◌,
}
use gopayrollengine.Base.Int.{ℤ, pos, ◌+ℤ◌, ltb_ℤ}
use gopayrollengine.Base.Int64.{sub64}
use gopayrollengine.Base.Lists.{find}
use gopayrollengine.Base.Result.{Result, ok, err, floor_rate_limited, record_not_found}
use gopayrollengine.Money as Kobo
use gopayrollengine.Money.{Kobo}
use gopayrollengine.Money.Currency.{
  Currency, ngn, usd, ghs, kes, zar, xof, gbp, eur, unlisted, from_major,
}
use gopayrollengine.Store.{
  DependencyTier, healthy, strained, dependent, DeclineReason, below_minimum, exceeds_earned,
  cooling_off, draw_limit_reached, funding_pool_exhausted, ewa_disabled, inactive_account,
  EwaPolicy, EwaWorkerPreference, M, pure, lift, gets, or_fail, modify, fail_if, statement,
  if_found, with_org_scope, ◌>>=◌, ◌>>◌,
}
use gopayrollengine.Advance.{org_currency_tx}
use gopayrollengine.Settle.{Outstanding, outstanding_tx}
use gopayrollengine.Dependency.{tier_cap, tier_cooling_off, hours}
use gopayrollengine.Funding.{funding_exposure}

-- The amounts of the default policy, in major units.
pub record PolicyAmounts : Type 0 where
  pub cap : ℤ
  pub min : ℤ
  pub floor : ℤ

abbrev amounts : ℕ → ℕ → ℕ → Option PolicyAmounts
amounts cap min floor = some (record { cap = pos cap; min = pos min; floor = pos floor })

unfoldable pub default_major_units : Currency → Option PolicyAmounts
default_major_units ngn = amounts 200000 1000 5000
default_major_units usd = amounts 500 5 20
default_major_units ghs = amounts 3000 30 150
default_major_units kes = amounts 30000 300 1500
default_major_units zar = amounts 4000 50 200
default_major_units xof = amounts 150000 1500 7500
default_major_units gbp = amounts 400 4 15
default_major_units eur = amounts 450 5 18
default_major_units (unlisted code) = none

-- The minor units of an amount, or zero where it does not convert.
abbrev pub minor_or_zero : ℤ → Currency → Kobo
minor_or_zero major currency = elim (from_major major currency) [ ok m ↦ m.minor | err e ↦ pos 0 ]

abbrev pub default_policy_of : PolicyAmounts → Currency → EwaPolicy
default_policy_of a currency = record {
  enabled = true;
  max_accrual_pct = pos 30;
  absolute_cap_kobo = minor_or_zero a.cap currency;
  min_draw_kobo = minor_or_zero a.min currency;
  max_draws_per_period = 4;
  cooling_off_hours = 24;
  emergency_floor_kobo = minor_or_zero a.floor currency;
  require_funding_coverage = false;
}

abbrev ngn_amounts : PolicyAmounts
ngn_amounts = record { cap = pos 200000; min = pos 1000; floor = pos 5000 }

unfoldable pub default_ewa_policy : Currency → EwaPolicy
unfolding default_major_units
default_ewa_policy currency = elim (default_major_units currency) [
  | none ↦ default_policy_of ngn_amounts ngn
  | some a ↦ default_policy_of a currency
]

unfoldable pub policy_tx : M EwaPolicy
unfolding default_ewa_policy
policy_tx = do
  statement
  found ← gets (λ s. s.policy)
  if_found found (org_currency_tx >>= λ currency. pure (default_ewa_policy currency)) pure

abbrev pub preference_or_none : ℕ → Option EwaWorkerPreference → EwaWorkerPreference
preference_or_none employee none = record {
  employee_id = employee;
  protected_payday_minor = pos 0;
  last_changed_at = none;
}
preference_or_none employee (some pref) = pref

unfoldable pub worker_preference_tx : ℕ → M EwaWorkerPreference
worker_preference_tx employee = do
  statement
  gets (λ s. preference_or_none employee (find (λ p. p.employee_id == employee) s.preferences))

-- An insert that replaces the row of the same worker.
abbrev pub upsert_preference :
    EwaWorkerPreference → List EwaWorkerPreference → List EwaWorkerPreference
upsert_preference pref [] = pref ∷ []
upsert_preference pref (p ∷ rest) =
    let later = upsert_preference pref rest in
    if p.employee_id == pref.employee_id then pref ∷ rest else p ∷ later

-- The times of the store are nanoseconds, as a Duration is.
-- The rate limit: a floor that is lowered before the policy's wait since the last change is over.
unfoldable pub is_rate_limited : EwaPolicy → EwaWorkerPreference → Kobo → ℕ → Bool
unfolding hours ◌+ℤ◌
is_rate_limited policy current amount now = elim current.last_changed_at [
  | none ↦ false
  | some at ↦
      if ltb_ℤ amount current.protected_payday_minor
      then ltb_ℤ (pos now) (pos at +ℤ hours policy.cooling_off_hours)
      else false
]

unfoldable pub set_protected_payday : ℕ → Kobo → ℕ → M EwaWorkerPreference
unfolding policy_tx worker_preference_tx is_rate_limited
set_protected_payday employee amount now = with_org_scope (do
  current ← worker_preference_tx employee
  policy ← policy_tx
  fail_if (is_rate_limited policy current amount now) floor_rate_limited
  let updated : EwaWorkerPreference = record {
    employee_id = employee;
    protected_payday_minor = amount;
    last_changed_at = some now;
  }
  statement
  modify (λ s. record s { preferences = upsert_preference updated s.preferences })
  pure updated)

-- A difference, or zero where it overflows or is negative.
unfoldable pub less_or_zero : Kobo → Kobo → Kobo
less_or_zero a b = elim (Kobo.sub a b) [
  | err e ↦ pos 0
  | ok d ↦ if Kobo.is_negative d then pos 0 else d
]

abbrev pub at_most : Kobo → Kobo → Kobo
at_most bound amount = if ltb_ℤ bound amount then bound else amount

-- A share of what is earned, under the policy's ceiling.
unfoldable pub capped_accrual : EwaPolicy → Kobo → Result Kobo
capped_accrual policy accrued = elim (Kobo.percent accrued policy.max_accrual_pct (pos 100)) [
  | err e ↦ err e
  | ok cap ↦ ok (at_most policy.absolute_cap_kobo cap)
]

-- The worker's own floor, which narrows what is available and never widens it.
unfoldable pub under_floor : Kobo → Kobo → Kobo → Kobo → Kobo
unfolding less_or_zero
under_floor basis protected outstanding available =
    if Kobo.is_positive protected
    then at_most (less_or_zero (less_or_zero basis protected) outstanding) available
    else available

-- What the employer's deposits leave over, from the exposure of the pool.
unfoldable pub funding_headroom : ℤ → Kobo
funding_headroom exposure = if ltb_ℤ exposure (pos 0) then sub64 (pos 0) exposure else pos 0

-- The available amount and whether the pool is what bounds it.
unfoldable pub under_funding : EwaPolicy → Kobo → M (Kobo × Bool)
unfolding funding_headroom
under_funding policy available =
    if policy.require_funding_coverage
    then (funding_exposure ngn >>= λ exposure.
        let headroom = funding_headroom exposure.minor in
        pure (at_most headroom available, ltb_ℤ headroom available))
    else pure (available, false)

-- What a worker has earned: the typical monthly income, what is accrued, and what lands on
-- payday if nothing else changes.
pub record Income : Type 0 where
  pub monthly_salary : Kobo
  pub accrued : Kobo
  pub period_earnings_basis : Kobo

pub data Earned : Type 0 where
  earns : Income → Earned
  no_basis : DeclineReason → Earned

pub record Assessment : Type 0 where
  pub score : ℕ
  pub tier : DependencyTier

pub record Eligibility : Type 0 where
  pub minimum_draw : Kobo
  pub accrued_to_date : Kobo
  pub policy_cap : Kobo
  pub tier_cap : Kobo
  pub outstanding : Kobo
  pub draws_this_period : ℕ
  pub assessment : Assessment
  pub available : Kobo
  pub funding_bound : Bool
  pub blocked : Option DeclineReason
  pub hardship_grant_suggested : Bool

abbrev pub healthy_so_far : Assessment
healthy_so_far = record { score = 0; tier = healthy }

-- An early return before anything is computed.
abbrev pub blocked_early : EwaPolicy → DeclineReason → Eligibility
blocked_early policy reason = record {
  minimum_draw = policy.min_draw_kobo;
  accrued_to_date = pos 0;
  policy_cap = pos 0;
  tier_cap = pos 0;
  outstanding = pos 0;
  draws_this_period = 0;
  assessment = healthy_so_far;
  available = pos 0;
  funding_bound = false;
  blocked = some reason;
  hardship_grant_suggested = false;
}

abbrev pub is_strained : DependencyTier → Bool
is_strained strained = true
is_strained dependent = true
is_strained _ = false

-- The velocity guardrails and the minimum, in their order; a last draw at 0 is none.
unfoldable pub guardrail :
    EwaPolicy → DependencyTier → Outstanding → Kobo → Bool → ℕ → Option DeclineReason
unfolding tier_cooling_off ◌+ℤ◌
guardrail policy tier drawn available funding_bound as_of =
    if leb policy.max_draws_per_period drawn.draw_count
    then some draw_limit_reached
    else if not (drawn.last_draw_at == 0)
        && ltb_ℤ (pos as_of) (pos drawn.last_draw_at +ℤ tier_cooling_off tier policy)
    then some cooling_off
    else if ltb_ℤ available policy.min_draw_kobo
    then some (if funding_bound then funding_pool_exhausted else exceeds_earned)
    else none

-- What follows the income.
unfoldable pub assess_limits : M Assessment → ℕ → ℕ → ℕ → EwaPolicy → Income → M Eligibility
unfolding capped_accrual under_floor under_funding less_or_zero guardrail worker_preference_tx
assess_limits assess employee period as_of policy income = do
  policy_cap ← lift (capped_accrual policy income.accrued)
  assessment ← assess
  let cap = tier_cap assessment.tier policy_cap policy
  drawn ← outstanding_tx employee period
  pref ← worker_preference_tx employee
  let floored =
      under_floor income.period_earnings_basis pref.protected_payday_minor drawn.outstanding
        (less_or_zero cap drawn.outstanding)
  funded ← under_funding policy floored
  pure (record {
    minimum_draw = policy.min_draw_kobo;
    accrued_to_date = income.accrued;
    policy_cap = policy_cap;
    tier_cap = cap;
    outstanding = drawn.outstanding;
    draws_this_period = drawn.draw_count;
    assessment = assessment;
    available = funded.0;
    funding_bound = funded.1;
    blocked = guardrail policy assessment.tier drawn funded.0 funded.1 as_of;
    hardship_grant_suggested =
        leb policy.max_draws_per_period drawn.draw_count && is_strained assessment.tier;
  })

-- The early returns: the policy is off, the worker is inactive, or there is no income basis.
unfoldable pub eligibility_tx : M Earned → M Assessment → ℕ → ℕ → ℕ → M Eligibility
unfolding assess_limits policy_tx
eligibility_tx earned assess employee period as_of = do
  statement
  found ← gets (λ s. find (λ e. e.id == employee) s.employees)
  emp ← or_fail found record_not_found
  -- The organization's row.
  statement
  policy ← policy_tx
  if not policy.enabled
      then pure (blocked_early policy ewa_disabled)
      else if not emp.is_active
      then pure (blocked_early policy inactive_account)
      else (earned >>= λ e. elim e [
        | no_basis reason ↦ pure (blocked_early policy reason)
        | earns income ↦ assess_limits assess employee period as_of policy income
      ])

-- The `switch` that decides: none approves.
unfoldable pub decide : Eligibility → Kobo → Option DeclineReason
decide el amount = elim el.blocked [
  | some reason ↦ some reason
  | none ↦
      if ltb_ℤ amount el.minimum_draw
      then some below_minimum
      else if ltb_ℤ el.available amount
      then some (if el.funding_bound then funding_pool_exhausted else exceeds_earned)
      else none
]
