-- ===== src/Grant.antt =====
-- internal/models/hardship_grant.go: the states of a hardship grant, and its reversal.
pub mod Issue
use gopayrollengine.Base.{ℕ, Bool, true, false, ◌&&◌, Option, none, some, List, ◌==◌}
use gopayrollengine.Base.Result.{stale_status}
use gopayrollengine.Money.Currency.{kobo_in}
use gopayrollengine.Store.{
  EwaHardshipGrant, GrantStatus, grant_pending, grant_submitted, grant_disbursed, grant_failed,
  grant_paid, grant_lost, cash_settlement, hardship_grant_expense, hardship_grant_reversal, M, pure,
  gets, modify, fail_if, statement, ◌>>=◌, ◌>>◌,
}
use gopayrollengine.Ledger.{ensure_account, post_transaction}
use gopayrollengine.Advance.{update_where, none_match, org_currency_tx, append_audit, movement}

-- UPDATE of the grants; the result says whether no row was affected.
unfoldable pub update_grants :
    (EwaHardshipGrant → Bool) → (EwaHardshipGrant → EwaHardshipGrant) → M Bool
update_grants wanted change = do
  statement
  untouched ← gets (λ s. none_match wanted s.grants)
  modify (λ s. record s { grants = update_where wanted change s.grants })
  pure untouched

-- status = pending
abbrev pub is_pending : GrantStatus → Bool
is_pending grant_pending = true
is_pending _ = false

-- status IN (pending, submitted)
abbrev pub is_unresolved : GrantStatus → Bool
is_unresolved grant_pending = true
is_unresolved grant_submitted = true
is_unresolved _ = false

unfoldable pub mark_grant_submitted : ℕ → ℕ → ℕ → M (Unit {0})
unfolding update_grants
mark_grant_submitted grant name reference = do
  now ← gets (λ s. s.now)
  untouched ←
      update_grants (λ g. g.id == grant && is_pending g.status)
        (λ g. record g {
          status = grant_submitted;
          provider_name = some name;
          provider_reference = some reference;
          submitted_at = some now;
        })
  fail_if untouched stale_status

unfoldable pub confirm_grant_disbursed : EwaHardshipGrant → M (Unit {0})
unfolding update_grants
confirm_grant_disbursed grant = do
  now ← gets (λ s. s.now)
  untouched ←
      update_grants (λ g. g.id == grant.id && is_unresolved g.status)
        (λ g. record g { status = grant_disbursed; disbursed_at = some now })
  fail_if untouched stale_status
  append_audit grant.id grant_paid

-- The reason of the failure is text.
unfoldable pub fail_grant : EwaHardshipGrant → M (Unit {0})
unfolding update_grants
fail_grant grant = do
  untouched ←
      update_grants (λ g. g.id == grant.id && is_unresolved g.status)
        (λ g. record g { status = grant_failed })
  fail_if untouched stale_status
  currency ← org_currency_tx
  cash ← ensure_account none cash_settlement currency
  expense ← ensure_account none hardship_grant_expense currency
  post_transaction (
      movement (record { prefix = hardship_grant_reversal; subject = grant.id; item = none })
        grant.id cash.id expense.id (kobo_in currency grant.amount_kobo))
  append_audit grant.id grant_lost
