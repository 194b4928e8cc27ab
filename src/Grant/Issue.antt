-- ===== src/Grant/Issue.antt =====
-- internal/services/ewa_hardship_grant_service.go and internal/workers/hardship_grant_worker.go: a
-- grant is issued, and its payout is submitted. Whether the task can be queued, the registry's
-- choice of a provider and the provider's answer are arguments.
use gopayrollengine.Base.{ℕ, Bool, not, Option, none, some, [], ◌∷◌, ◌++◌, ◌==◌, if◌then◌else◌}
use gopayrollengine.Base.Int.{ltb_ℤ}
use gopayrollengine.Base.Lists.{find, is_some}
use gopayrollengine.Base.Result as Result
use gopayrollengine.Base.Result.{
  Error, duplicate_key, record_not_found, queue_unavailable, invalid_grant, grant_pool_exhausted,
  grant_ineligible, not_submittable, unsupported_currency, provider_unavailable,
}
use gopayrollengine.Money as Kobo
use gopayrollengine.Money.{Kobo}
use gopayrollengine.Money.Currency.{Currency, kobo_in}
use gopayrollengine.Store.{
  EwaHardshipGrant, grant_pending, EwaPolicy, hardship_grant, cash_settlement,
  hardship_grant_expense, issued, M, pure, fail, gets, or_fail, modify, fail_if, statement, draw_id,
  ignore_stale, with_org_scope, ◌>>=◌, ◌>>◌,
}
use gopayrollengine.Ledger.{ensure_account, post_transaction}
use gopayrollengine.Advance.{org_currency_tx, append_audit, movement}
use gopayrollengine.Funding.{funding_exposure}
use gopayrollengine.Request.{policy_tx, funding_headroom}
use gopayrollengine.Disburse.{TransferRequest, TransferResult, accepted, rejected, unreachable}
use gopayrollengine.Grant.{is_pending, mark_grant_submitted, fail_grant}

abbrev pub new_grant : ℕ → ℕ → Kobo → EwaHardshipGrant
new_grant id employee amount = record {
  id = id;
  employee_id = employee;
  amount_kobo = amount;
  status = grant_pending;
  provider_name = none;
  provider_reference = none;
  submitted_at = none;
  disbursed_at = none;
}

unfoldable pub create_grant : EwaHardshipGrant → M (Unit {0})
create_grant row = do
  statement
  taken ← gets (λ s. find (λ g. g.id == row.id) s.grants)
  fail_if (is_some taken) duplicate_key
  modify (λ s. record s { grants = s.grants ++ row ∷ [] })

-- The guardrail of the funding pool.
unfoldable pub check_headroom : EwaPolicy → Currency → Kobo → M (Unit {0})
check_headroom policy currency amount =
    if policy.require_funding_coverage
    then (funding_exposure currency >>= λ exposure.
        fail_if (ltb_ℤ (funding_headroom exposure.minor) amount) grant_pool_exhausted)
    else pure tt

-- What follows the checks.
unfoldable pub book_grant : Bool → Currency → EwaHardshipGrant → M EwaHardshipGrant
unfolding create_grant
book_grant queued currency g = do
  create_grant g
  cash ← ensure_account none cash_settlement currency
  expense ← ensure_account none hardship_grant_expense currency
  post_transaction (
      movement (record { prefix = hardship_grant; subject = g.id; item = none }) g.id expense.id
        cash.id (kobo_in currency g.amount_kobo))
  append_audit g.id issued
  fail_if (not queued) queue_unavailable
  pure g

-- The reason is text, of which the code tests that it is there.
unfoldable pub issue_hardship_grant : Bool → ℕ → Kobo → Bool → M EwaHardshipGrant
unfolding policy_tx check_headroom book_grant
issue_hardship_grant queued employee amount reason = do
  fail_if (not (Kobo.is_positive amount)) invalid_grant
  fail_if (not reason) invalid_grant
  with_org_scope (do
    -- The advisory lock of the organization's advances.
    statement
    statement
    found ← gets (λ s. find (λ e. e.id == employee) s.employees)
    emp ← or_fail found grant_ineligible
    fail_if (not emp.is_active) grant_ineligible
    policy ← policy_tx
    currency ← org_currency_tx
    check_headroom policy currency amount
    id ← draw_id
    book_grant queued currency (new_grant id employee amount))

unfoldable pub load_pending : ℕ → M (EwaHardshipGrant × Currency)
load_pending id = do
  statement
  found ← gets (λ s. find (λ g. g.id == id) s.grants)
  grant ← or_fail found record_not_found
  fail_if (not (is_pending grant.status)) not_submittable
  currency ← org_currency_tx
  statement
  employee ← gets (λ s. find (λ e. e.id == grant.employee_id) s.employees)
  or_fail employee record_not_found
  pure (grant, currency)

-- A lost race is no error: the webhook resolved the grant already.
unfoldable pub fail_payout : EwaHardshipGrant → M (Unit {0})
unfolding fail_grant
fail_payout grant = ignore_stale (with_org_scope (fail_grant grant))

unfoldable pub record_payout : ℕ → EwaHardshipGrant → TransferResult → M (Unit {0})
unfolding fail_payout mark_grant_submitted
record_payout provider grant (accepted reference) =
    ignore_stale (with_org_scope (mark_grant_submitted grant.id provider reference))
record_payout provider grant rejected = fail_payout grant
record_payout provider grant unreachable = fail provider_unavailable

-- An organization whose currency no provider settles has its grant failed.
unfoldable pub submit_payout :
    (Currency → Option ℕ)
    → (ℕ → TransferRequest → TransferResult)
    → EwaHardshipGrant
    → Currency
    → M (Unit {0})
unfolding record_payout
submit_payout select transfer grant currency = elim (select currency) [
  | none ↦ fail_payout grant >> fail unsupported_currency
  | some provider ↦ record_payout provider grant (
      transfer provider
        (record { reference = grant.id; amount = kobo_in currency grant.amount_kobo }))
]

abbrev pub or_done : M (EwaHardshipGrant × Currency) → M (Option (EwaHardshipGrant × Currency))
or_done m s =
    (let (r, t) = m s in
      elim r [
        | Result.ok loaded ↦ (Result.ok (some loaded), t)
        | Result.err not_submittable ↦ (Result.ok none, t)
        | Result.err e ↦ (Result.err e, t)
      ])

unfoldable pub disburse_hardship_grant :
    (Currency → Option ℕ) → (ℕ → TransferRequest → TransferResult) → ℕ → M (Unit {0})
unfolding load_pending submit_payout
disburse_hardship_grant select transfer id = do
  loaded ← or_done (with_org_scope (load_pending id))
  elim loaded [ none ↦ pure tt | some found ↦ submit_payout select transfer found.0 found.1 ]
