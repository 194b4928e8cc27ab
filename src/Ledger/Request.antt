-- ===== src/Ledger/Request.antt =====
-- internal/models/ledger.go: the chart of accounts, a posting request, and ValidatePosting.
use gopayrollengine.Base.{ℕ, Bool, true, false, Option, none, some, List, [], ◌∷◌, ltb, not}
use gopayrollengine.Base.Int.{pos, eqb_ℤ}
use gopayrollengine.Base.Lists.{length}
use gopayrollengine.Base.Result.{
  Result, ok, err, missing_key, no_entries, non_positive, unbalanced, invalid_direction,
  unknown_currency, currency_mismatch, ◌>>=◌, ◌>>◌, fail_if,
}
use gopayrollengine.Money.Currency.{Currency, Money, same_currency, is_valid, is_positive, add}
use gopayrollengine.Store.{
  Direction, debit, credit, unlisted_direction, AccountType, employer_funding, advance_receivable,
  wage_payable, cash_settlement, fee_income, write_off_expense, employee_savings,
  hardship_grant_expense, unlisted_account, KeyPrefix, Key,
}

unfoldable pub normal_balance : AccountType → Option Direction
normal_balance employer_funding = some credit
normal_balance advance_receivable = some debit
normal_balance wage_payable = some credit
normal_balance cash_settlement = some credit
normal_balance fee_income = some credit
normal_balance write_off_expense = some debit
normal_balance employee_savings = some credit
normal_balance hardship_grant_expense = some debit
normal_balance unlisted_account = none

pub record EntryInput : Type 0 where
  pub account_id : ℕ
  pub direction : Direction
  pub amount : Money

-- No key stands for the empty text.
pub record PostingRequest : Type 0 where
  pub kind : KeyPrefix
  pub reference : ℕ
  pub idempotency_key : Option Key
  pub entries : List EntryInput

-- The switch on the direction of one entry, on the running totals.
unfoldable pub tally : Direction → Money → Money → Money → Result (Money × Money)
tally debit amount debits credits = do d ← add debits amount; ok (d, credits)
tally credit amount debits credits = do c ← add credits amount; ok (debits, c)
tally unlisted_direction amount debits credits = err invalid_direction

-- The loop over the entries of a request in `currency`.
unfoldable pub totals : Currency → Money → Money → List EntryInput → Result (Money × Money)
totals currency debits credits [] = ok (debits, credits)
totals currency debits credits (e ∷ rest) =
    fail_if (not (same_currency e.amount.currency currency)) currency_mismatch
    >> (fail_if (not (is_positive e.amount)) non_positive
        >> (tally e.direction e.amount debits credits >>= λ (d, c). totals currency d c rest))

abbrev first_currency : List EntryInput → Result Currency
first_currency [] = err no_entries
first_currency (e ∷ rest) = ok e.amount.currency

abbrev no_key : Option Key → Bool
no_key none = true
no_key (some k) = false

unfoldable pub validate_posting : PostingRequest → Result (Unit {0})
unfolding totals tally
validate_posting req = do
  fail_if (no_key req.idempotency_key) missing_key
  fail_if (ltb (length req.entries) 2) no_entries
  currency ← first_currency req.entries
  fail_if (not (is_valid currency)) unknown_currency
  let zero_total : Money = record { minor = pos 0; currency = currency }
  (debits, credits) ← totals currency zero_total zero_total req.entries
  fail_if (not (eqb_ℤ debits.minor credits.minor)) unbalanced
