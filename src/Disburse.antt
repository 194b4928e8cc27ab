-- ===== src/Disburse.antt =====
-- internal/workers/ewa_disbursement_worker.go: one advance's transfer is submitted to a provider.
-- The registry's choice by currency and the provider's answer are arguments.
use gopayrollengine.Base.{ℕ, not, ◌||◌, Option, none, some, ◌==◌}
use gopayrollengine.Base.Lists.{find, is_some}
use gopayrollengine.Base.Result as Result
use gopayrollengine.Base.Result.{
  record_not_found, not_submittable, unsupported_currency, provider_unavailable,
}
use gopayrollengine.Money.Currency.{Currency, Money, kobo_in}
use gopayrollengine.Store.{
  EwaAdvance, approved, provider_rejected, M, pure, fail, gets, or_fail, fail_if, statement,
  ignore_stale, with_org_scope, ◌>>=◌, ◌>>◌,
}
use gopayrollengine.Advance.{
  same_status, org_currency_tx, cancel_advance, mark_submitted_to_provider,
}

-- What the worker submits: our reference, and the amount.
pub record TransferRequest : Type 0 where
  pub reference : ℕ
  pub amount : Money

-- InitiateTransfer accepts with the rail's reference, rejects, or errs.
pub data TransferResult : Type 0 where
  accepted : ℕ → TransferResult
  rejected unreachable : TransferResult

pub data Outcome : Type 0 where
  submitted cancelled_transfer skipped : Outcome

unfoldable pub load_submittable : ℕ → M (EwaAdvance × Currency)
load_submittable id = do
  statement
  found ← gets (λ s. find (λ a. a.id == id) s.advances)
  advance ← or_fail found record_not_found
  fail_if (is_some advance.provider_reference || not (same_status advance.status approved))
      not_submittable
  currency ← org_currency_tx
  statement
  employee ← gets (λ s. find (λ e. e.id == advance.employee_id) s.employees)
  or_fail employee record_not_found
  pure (advance, currency)

abbrev pub or_skip : M (EwaAdvance × Currency) → M (Option (EwaAdvance × Currency))
or_skip m s =
    (let (r, t) = m s in
      elim r [
        | Result.ok loaded ↦ (Result.ok (some loaded), t)
        | Result.err not_submittable ↦ (Result.ok none, t)
        | Result.err e ↦ (Result.err e, t)
      ])

-- What follows the provider's answer.
unfoldable pub record_answer : ℕ → EwaAdvance → TransferResult → M Outcome
record_answer provider advance (accepted reference) =
    with_org_scope (mark_submitted_to_provider advance.id provider reference) >> pure submitted
record_answer provider advance rejected =
    ignore_stale (with_org_scope (cancel_advance advance approved provider_rejected))
    >> pure cancelled_transfer
record_answer provider advance unreachable = fail provider_unavailable

-- The provider that is chosen is given by its name.
unfoldable pub submit :
    (Currency → Option ℕ)
    → (ℕ → TransferRequest → TransferResult)
    → EwaAdvance
    → Currency
    → M Outcome
unfolding record_answer
submit select transfer advance currency = do
  provider ← or_fail (select currency) unsupported_currency
  record_answer provider advance (
      transfer provider
        (record { reference = advance.id; amount = kobo_in currency advance.amount_kobo }))

unfoldable pub disburse_ewa_advance :
    (Currency → Option ℕ) → (ℕ → TransferRequest → TransferResult) → ℕ → M Outcome
unfolding load_submittable submit
disburse_ewa_advance select transfer id = do
  loaded ← or_skip (with_org_scope (load_submittable id))
  elim loaded [ none ↦ pure skipped | some found ↦ submit select transfer found.0 found.1 ]
