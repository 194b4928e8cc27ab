-- ===== src/Payroll/Once.antt =====
-- The statements of CreatePayroll that do not write the batches (internal/services/
-- payroll_service.go), and what they keep of them.
pub mod Created
pub mod Employees
use gopayrollengine.Base.{
  ℕ, ◌≡◌, refl, sym, subst, Bool, List, [], ◌∷◌, ◌++◌, Option, if◌then◌else◌,
}
use gopayrollengine.Money as Kobo
use gopayrollengine.Money.{Kobo}
use gopayrollengine.Money.Currency.{Currency}
use gopayrollengine.Store.{
  AccountType, AuditAction, AuditEvent, Payroll, EwaAdvance, AdvanceStatus, DeclineReason,
  TimeEntry, LedgerAccount, Store, modify, approved, settled_before_disbursement,
}
use gopayrollengine.Store.Keeps.{
  Keeps, IgnoresTick, Keeps-modify, Keeps-if, Keeps-bind, Keeps-ignore_stale, Keeps-lift,
  keeps_rules,
}
use gopayrollengine.Ledger.{PostingRequest, post_transaction, ensure_account}
use gopayrollengine.Ledger.Frame.{IgnoresBooks, post_transaction_frame, ensure_account_frame}
use gopayrollengine.Advance.{
  update_where, update_advances, transition_advance, append_audit, org_currency_tx, cancel_advance,
  remaining_kobo, same_status,
}
use gopayrollengine.Settle.{
  portion_of, close_advance, recover, settle_each, settle_all, settle_advances_for_payroll_item,
}
use gopayrollengine.Savings.{
  savings_preference_tx, post_diversion, divert, divert_savings_for_payroll_item,
}
use gopayrollengine.Timesheet.{update_entries, mark_time_entries_paid}

-- A property of the batches.
pub record Batches (Q : List Payroll → Type 0) (s : Store) : Type 0 where
  pub rows : Q s.payrolls

module _ {Q : List Payroll → Type 0} where
  -- A statement that does not write the batches.
  pub elsewhere :
      (f : Store → Store)
      → ((s : Store) → (f s).payrolls ≡ s.payrolls)
      → Keeps (Batches Q) (modify f)
  elsewhere f same = Keeps-modify f (λ s h. record { rows = subst Q (sym (same s)) h.rows })

  pub tick : IgnoresTick (Batches Q)
  tick = record { at = λ s n h. record { rows = h.rows } }

  books : IgnoresBooks (Batches Q)
  books = record {
    tick = tick;
    accounts = λ s rows h. record { rows = h.rows };
    transactions = λ s rows h. record { rows = h.rows };
    entries = λ s rows h. record { rows = h.rows };
    audits = λ s rows h. record { rows = h.rows };
  }

  advance_rows :
      (wanted : EwaAdvance → Bool) (change : EwaAdvance → EwaAdvance)
      → Keeps
          (Batches Q)
          (modify (λ s. record s { advances = update_where wanted change s.advances }))
  advance_rows wanted change = elsewhere _ (λ s. refl)

  pub update_advances-Keeps :
      (wanted : EwaAdvance → Bool) (change : EwaAdvance → EwaAdvance)
      → Keeps (Batches Q) (update_advances wanted change)
  unfolding update_advances
  update_advances-Keeps wanted change = search (keeps_rules, tick, advance_rows)

  pub posts : (req : PostingRequest) → Keeps (Batches Q) (post_transaction req)
  posts req = post_transaction_frame books req

  pub accounts :
      (employee : Option ℕ) (kind : AccountType) (currency : Currency)
      → Keeps (Batches Q) (ensure_account employee kind currency)
  accounts employee kind currency = ensure_account_frame books employee kind currency

  audit_row :
      (row : AuditEvent)
      → Keeps (Batches Q) (modify (λ s. record s { audits = s.audits ++ row ∷ [] }))
  audit_row row = elsewhere _ (λ s. refl)

  pub append_audit-Keeps :
      (entity : ℕ) (action : AuditAction) → Keeps (Batches Q) (append_audit entity action)
  unfolding append_audit
  append_audit-Keeps entity action = search (keeps_rules, tick, audit_row)

  pub transition_advance-Keeps :
      (adv : EwaAdvance) (current next : AdvanceStatus)
      → Keeps (Batches Q) (transition_advance adv current next)
  unfolding transition_advance
  transition_advance-Keeps adv current next = search (keeps_rules, update_advances-Keeps) depth 9

  pub org_currency_tx-Keeps : Keeps (Batches Q) org_currency_tx
  unfolding org_currency_tx
  org_currency_tx-Keeps = search (keeps_rules, tick)

  pub ruleset once_rules = (
    keeps_rules, tick, posts, accounts, append_audit-Keeps, update_advances-Keeps,
    transition_advance-Keeps, org_currency_tx-Keeps,
  )

  cancel_advance-Keeps :
      (adv : EwaAdvance) (from : AdvanceStatus) (reason : DeclineReason)
      → Keeps (Batches Q) (cancel_advance adv from reason)
  unfolding cancel_advance
  cancel_advance-Keeps adv from reason = search once_rules depth 12

  close_advance-Keeps : (adv : EwaAdvance) (item : ℕ) → Keeps (Batches Q) (close_advance adv item)
  unfolding close_advance
  close_advance-Keeps adv item = search once_rules depth 9

  module _ (currency : Currency) (receivable payable : LedgerAccount) (item : ℕ) where
    recover-Keeps :
        (adv : EwaAdvance) (portion : Kobo)
        → Keeps (Batches Q) (recover currency receivable payable item adv portion)
    unfolding recover
    recover-Keeps adv portion = search (once_rules, close_advance-Keeps) depth 12

    settle_each-Keeps :
        (advances : List EwaAdvance) (withheld remaining : Kobo)
        → Keeps
            (Batches Q)
            (settle_each currency receivable payable item advances withheld remaining)
    unfolding settle_each
    settle_each-Keeps [] withheld remaining = search keeps_rules
    settle_each-Keeps (adv ∷ rest) withheld remaining =
        let skip = settle_each-Keeps rest withheld remaining in
        let portion = portion_of (remaining_kobo adv) remaining in
        Keeps-if (same_status adv.status approved) _ _
          (Keeps-bind _ _
            (Keeps-ignore_stale _ (cancel_advance-Keeps adv approved settled_before_disbursement))
            (λ _. skip))
          (Keeps-if (Kobo.is_positive (remaining_kobo adv)) _ _
            (Keeps-if (Kobo.is_positive portion) _ _
              (Keeps-bind _ _ (recover-Keeps adv portion) λ _.
                Keeps-bind _ _ (Keeps-lift _)
                  λ next. Keeps-bind _ _ (Keeps-lift _) λ left. settle_each-Keeps rest next left)
              skip)
            skip)

  settle_all-Keeps :
      (employee item : ℕ) (advances : List EwaAdvance) (available : Kobo)
      → Keeps (Batches Q) (settle_all employee item advances available)
  unfolding settle_all
  settle_all-Keeps employee item advances available =
      search (once_rules, settle_each-Keeps) depth 12

  pub settle-Keeps :
      (employee period item : ℕ) (available : Kobo)
      → Keeps (Batches Q) (settle_advances_for_payroll_item employee period item available)
  unfolding settle_advances_for_payroll_item
  settle-Keeps employee period item available = search (once_rules, settle_all-Keeps) depth 9

  post_diversion-Keeps :
      (employee item : ℕ) (amount : Kobo) → Keeps (Batches Q) (post_diversion employee item amount)
  unfolding post_diversion
  post_diversion-Keeps employee item amount = search once_rules depth 12

  savings_preference_tx-Keeps : (employee : ℕ) → Keeps (Batches Q) (savings_preference_tx employee)
  unfolding savings_preference_tx
  savings_preference_tx-Keeps employee = search once_rules

  pub divert-Keeps :
      (employee item : ℕ) (net : Kobo)
      → Keeps (Batches Q) (divert_savings_for_payroll_item employee item net)
  unfolding divert_savings_for_payroll_item divert
  divert-Keeps employee item net =
      search (once_rules, savings_preference_tx-Keeps, post_diversion-Keeps) depth 12

  entry_rows :
      (wanted : TimeEntry → Bool) (change : TimeEntry → TimeEntry)
      → Keeps
          (Batches Q)
          (modify (λ s. record s { time_entries = update_where wanted change s.time_entries }))
  entry_rows wanted change = elsewhere _ (λ s. refl)

  update_entries-Keeps :
      (wanted : TimeEntry → Bool) (change : TimeEntry → TimeEntry)
      → Keeps (Batches Q) (update_entries wanted change)
  unfolding update_entries
  update_entries-Keeps wanted change = search (once_rules, entry_rows)

  pub mark-Keeps : (ids : List ℕ) (item : ℕ) → Keeps (Batches Q) (mark_time_entries_paid ids item)
  unfolding mark_time_entries_paid
  mark-Keeps ids item = search (once_rules, update_entries-Keeps) depth 9
