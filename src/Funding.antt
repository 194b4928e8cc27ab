-- ===== src/Funding.antt =====
-- internal/models/funding.go: deposits of an employer, and how far the advances exceed them; and
-- internal/services/employee_termination_service.go, which closes a worker's advances.
pub mod Laws
use gopayrollengine.Base.{
  ℕ, ◌+◌, Bool, true, false, ◌&&◌, Option, none, some, List, [], ◌∷◌, ◌==◌, if◌then◌else◌,
}
use gopayrollengine.Base.Lists.{find, select}
use gopayrollengine.Base.Result.{record_not_found}
use gopayrollengine.Money.Currency.{Currency, Money}
use gopayrollengine.Store.{
  cash_settlement, employer_funding, funding_deposit, LedgerTransaction, Employee, EwaAdvance,
  approved, disbursed, employee_terminated, terminated, Store, M, pure, gets, or_fail, modify,
  statement, ignore_stale, with_org_scope, ◌>>=◌, ◌>>◌,
}
use gopayrollengine.Ledger.{ensure_account, post_transaction, account_balance}
use gopayrollengine.Advance.{
  movement, append_audit, same_status, is_outstanding, cancel_advance, write_off_advance,
  update_where,
}

unfoldable pub record_employer_funding : Money → ℕ → M LedgerTransaction
record_employer_funding amount provider_reference = do
  cash ← ensure_account none cash_settlement amount.currency
  funding ← ensure_account none employer_funding amount.currency
  post_transaction (
      movement (record { prefix = funding_deposit; subject = provider_reference; item = none })
        provider_reference cash.id funding.id amount)

unfoldable pub funding_exposure : Currency → M Money
funding_exposure currency = do
  cash ← ensure_account none cash_settlement currency
  account_balance cash.id

-- The row of the employee, and the login that is revoked with it, which is a table of its own.
unfoldable pub deactivate : Employee → M (Unit {0})
deactivate emp =
    if emp.is_active
    then (statement
        >> modify (λ s. record s {
          employees =
              update_where (λ e. e.id == emp.id) (λ e. record e { is_active = false }) s.employees;
        })
        >> statement
        >> append_audit emp.id terminated)
    else pure tt

-- The `switch` over the status of one advance.
unfoldable pub resolve_advance : EwaAdvance → M (Unit {0})
resolve_advance adv =
    if same_status adv.status approved
    then cancel_advance adv approved employee_terminated
    else if same_status adv.status disbursed
    then write_off_advance adv employee_terminated
    else pure tt

-- The loop over the advances: a lost race is passed over.
unfoldable pub resolve_advances : List EwaAdvance → M (Unit {0})
unfolding resolve_advance
resolve_advances [] = pure tt
resolve_advances (adv ∷ rest) = ignore_stale (resolve_advance adv) >> resolve_advances rest

-- What runs inside the transaction.
unfoldable pub terminate_tx : ℕ → M Employee
unfolding deactivate resolve_advances is_outstanding
terminate_tx employee = do
  statement
  found ← gets (λ s. find (λ e. e.id == employee) s.employees)
  emp ← or_fail found record_not_found
  deactivate emp
  statement
  advances ← gets (λ s. select (λ a. a.employee_id == employee && is_outstanding a) s.advances)
  resolve_advances advances
  pure (record emp { is_active = false })

unfoldable pub terminate : ℕ → M Employee
unfolding terminate_tx
terminate employee = with_org_scope (terminate_tx employee)
