-- ===== src/Advance.antt =====
-- internal/models/ewa.go and ewa_ledger.go: the life of an advance, and the ledger postings that
-- its changes make. The proofs are in the children.
pub mod Status
pub mod Remaining
pub mod Evolves
unfoldable pub use Status.*
use gopayrollengine.Base.{
  ℕ, ◌+◌, Bool, true, false, ◌&&◌, ◌||◌, Option, none, some, List, [], ◌∷◌, ◌++◌, ◌==◌,
  if◌then◌else◌, not,
}
use gopayrollengine.Base.Int.{ℤ, pos, eqb_ℤ}
use gopayrollengine.Base.Lists.{is_some}
use gopayrollengine.Base.Result.{
  Result, ok, err, database, invalid_transition, stale_status, record_not_found, already_submitted,
}
use gopayrollengine.Money as Kobo
use gopayrollengine.Money.{Kobo}
use gopayrollengine.Money.Currency.{Currency, Money, kobo_in}
use gopayrollengine.Store.{
  debit, credit, cash_settlement, advance_receivable, write_off_expense, LedgerTransaction,
  EwaAdvance, AdvanceStatus, approved, disbursed, settled, cancelled, written_off, DeclineReason,
  KeyPrefix, ewa_cancellation, ewa_write_off, Key, AuditAction, advance_cancelled,
  advance_written_off, advance_disbursed, Store, M, pure, fail, lift, gets, or_fail, modify,
  fail_if, statement, ◌>>=◌, ◌>>◌,
}
use gopayrollengine.Ledger.{PostingRequest, EntryInput, post_transaction, ensure_account}

-- The rows of an UPDATE: `change` is applied where `wanted` holds.
abbrev pub update_where {ℓ} : {A : Type ℓ} → (A → Bool) → (A → A) → List A → List A
update_where wanted change [] = []
update_where wanted change (a ∷ rest) =
    (if wanted a then change a else a) ∷ update_where wanted change rest

-- RowsAffected is zero.
abbrev pub none_match {ℓ} : {A : Type ℓ} → (A → Bool) → List A → Bool
none_match wanted [] = true
none_match wanted (a ∷ rest) = if wanted a then false else none_match wanted rest

-- UPDATE ewa_advances; the result says whether no row was affected.
unfoldable pub update_advances : (EwaAdvance → Bool) → (EwaAdvance → EwaAdvance) → M Bool
update_advances wanted change = do
  statement
  untouched ← gets (λ s. none_match wanted s.advances)
  modify (λ s. record s { advances = update_where wanted change s.advances })
  pure untouched

-- The columns that a transition writes at time `now`.
abbrev pub stamped : ℕ → AdvanceStatus → EwaAdvance → EwaAdvance
stamped now disbursed a = record a { status = disbursed; disbursed_at = some now }
stamped now settled a = record a { status = settled; settled_at = some now }
stamped now next a = record a { status = next }

-- The result is the caller's copy of the row, whose status alone is changed.
unfoldable pub transition_advance : EwaAdvance → AdvanceStatus → AdvanceStatus → M EwaAdvance
transition_advance advance current next = do
  fail_if (not (can_transition_advance current next)) invalid_transition
  now ← gets (λ s. s.now)
  untouched ←
      update_advances (λ a. a.id == advance.id && same_status a.status current) (stamped now next)
  fail_if untouched stale_status
  pure (record advance { status = next })

unfoldable pub is_outstanding : EwaAdvance → Bool
is_outstanding a = same_status a.status approved || same_status a.status disbursed

unfoldable pub remaining_kobo : EwaAdvance → Kobo
remaining_kobo a = elim (Kobo.sub a.amount_kobo a.recovered_kobo) [
  | ok remaining ↦ if Kobo.is_negative remaining then pos 0 else remaining
  | err e ↦ pos 0
]

unfoldable pub org_currency_tx : M Currency
org_currency_tx = do statement; found ← gets (λ s. s.org_currency); or_fail found record_not_found

unfoldable pub append_audit : ℕ → AuditAction → M (Unit {0})
append_audit entity action = do
  statement
  modify
      (λ s. record s { audits = s.audits ++ record { entity_id = entity; action = action } ∷ [] })

-- One movement between two accounts: a debit line and a credit line of the same amount.
abbrev pub movement : Key → ℕ → ℕ → ℕ → Money → PostingRequest
movement key reference debited credited amount = record {
  kind = key.prefix;
  reference = reference;
  idempotency_key = some key;
  entries =
      record { account_id = debited; direction = debit; amount = amount }
      ∷ record { account_id = credited; direction = credit; amount = amount }
      ∷ [];
}

abbrev pub advance_key : KeyPrefix → EwaAdvance → Key
advance_key prefix adv = record { prefix = prefix; subject = adv.id; item = none }

abbrev pub with_reason : DeclineReason → EwaAdvance → EwaAdvance
with_reason reason a = record a { decline_reason = some reason }

unfoldable pub cancel_advance : EwaAdvance → AdvanceStatus → DeclineReason → M (Unit {0})
cancel_advance adv from reason = do
  transition_advance adv from cancelled
  update_advances (λ a. a.id == adv.id) (with_reason reason)
  currency ← org_currency_tx
  receivable ← ensure_account (some adv.employee_id) advance_receivable currency
  cash ← ensure_account none cash_settlement currency
  post_transaction (
      movement (advance_key ewa_cancellation adv) adv.id cash.id receivable.id
        (kobo_in currency adv.amount_kobo))
  append_audit adv.id advance_cancelled

unfoldable pub write_off_advance : EwaAdvance → DeclineReason → M (Unit {0})
write_off_advance adv reason = do
  transition_advance adv disbursed written_off
  update_advances (λ a. a.id == adv.id) (with_reason reason)
  currency ← org_currency_tx
  receivable ← ensure_account (some adv.employee_id) advance_receivable currency
  write_off ← ensure_account none write_off_expense currency
  post_transaction (
      movement (advance_key ewa_write_off adv) adv.id write_off.id receivable.id
        (kobo_in currency adv.amount_kobo))
  append_audit adv.id advance_written_off

unfoldable pub mark_submitted_to_provider : ℕ → ℕ → ℕ → M (Unit {0})
mark_submitted_to_provider advance name reference = do
  untouched ←
      update_advances (λ a. a.id == advance && not (is_some a.provider_reference))
        (λ a. record a { provider_name = some name; provider_reference = some reference })
  fail_if untouched already_submitted

unfoldable pub confirm_disbursed : EwaAdvance → M (Unit {0})
confirm_disbursed adv = do
  transition_advance adv approved disbursed
  append_audit adv.id advance_disbursed
