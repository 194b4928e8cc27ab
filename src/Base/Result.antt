-- ===== src/Base/Result.antt =====
-- Go's pair of a value and an error, as one value: the functions modelled here return the zero
-- value beside an error, which no caller reads. The errors are the sentinels that the code
-- compares by errors.Is; a message that is only formatted carries the sentinel that it wraps.
use mathlib.Core.Path.{◌≡◌, refl}
use mathlib.Core.Bool.{Bool, true, false}

pub data Error : Type 0 where
  -- pkg/money
  overflow invalid_format division_by_zero unknown_currency currency_mismatch : Error
  -- internal/models/ledger.go
  missing_key no_entries non_positive unbalanced invalid_direction unknown_account_type : Error
  -- internal/models: transitions, and rows that are not there
  invalid_transition stale_status record_not_found already_submitted : Error
  -- internal/services
  declined_request floor_rate_limited not_resolvable not_yet_stuck invalid_resolution : Error
  not_retryable nothing_to_retry queue_unavailable invalid_preference : Error
  invalid_period no_active_employees unsupported_currency negative_item : Error
  outcome_unknown provider_rejected not_submittable provider_unavailable : Error
  already_resolved not_collectible no_mandate consent_withdrawn : Error
  invalid_policy_value invalid_grant grant_pool_exhausted grant_ineligible invalid_bill : Error
  time_entry_invalid_range time_entry_already_resolved time_entry_invalid_shift : Error
  time_entry_day_overflow time_entry_inactive time_entry_not_hourly time_entry_future_date : Error
  -- a statement that the database refuses or loses
  database duplicate_key : Error

pub data Result {ℓ} (A : Type ℓ) : Type ℓ where
  ok : A → Result A
  err : Error → Result A

-- An early return of an error.
abbrev pub fail_if : Bool → Error → Result (Unit {0})
fail_if false e = ok tt
fail_if true e = err e

module _ {ℓ κ} {A : Type ℓ} {B : Type κ} where
  infixl 5 ◌>>=◌
  -- `if err != nil { return err }` before what follows.
  abbrev pub ◌>>=◌ : Result A → (A → Result B) → Result B
  err x >>= after = err x
  ok value >>= after = after value

  -- What was run before a success.
  pub >>=-eq-ok :
      (r : Result A) (after : A → Result B) {b : B}
      → (r >>= after) ≡ ok b
      → (value : A) × (r ≡ ok value) × (after value ≡ ok b)
  >>=-eq-ok (err x) after h = cc
  >>=-eq-ok (ok value) after h = (value, refl, h)

infixl 5 ◌>>◌
abbrev pub ◌>>◌ {ℓ} : {B : Type ℓ} → Result (Unit {0}) → Result B → Result B
r >> after = r >>= λ _. after

pub ok-injective {ℓ} : {A : Type ℓ} {a b : A} → ok a ≡ ok b → a ≡ b
ok-injective h = cc
