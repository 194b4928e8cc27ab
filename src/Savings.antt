-- ===== src/Savings.antt =====
-- internal/services/ewa_savings_service.go: a worker's savings election, and what it diverts from
-- the net pay of one payroll item.
pub mod Diverted
use gopayrollengine.Base.{
  ℕ, Bool, true, false, ◌||◌, Option, none, some, List, [], ◌∷◌, ◌==◌, if◌then◌else◌,
}
use gopayrollengine.Base.Int.{ℤ, pos, ltb_ℤ, leb_ℤ, eqb_ℤ, rem}
use gopayrollengine.Base.Int64.{sub64}
use gopayrollengine.Base.Lists.{find}
use gopayrollengine.Base.Result.{Result, ok, err, invalid_preference}
use gopayrollengine.Money as Kobo
use gopayrollengine.Money.{Kobo}
use gopayrollengine.Money.Currency.{kobo_in}
use gopayrollengine.Store.{
  wage_payable, employee_savings, ewa_savings, SavingsMode, fixed_percent, round_up, unlisted_mode,
  EwaSavingsPreference, Key, Store, M, pure, lift, gets, modify, fail_if, statement, with_org_scope,
  ◌>>=◌, ◌>>◌,
}
use gopayrollengine.Ledger.{account_balance, ensure_account, post_transaction}
use gopayrollengine.Advance.{movement, org_currency_tx}

pub record SavingsPreferenceUpdate : Type 0 where
  pub enabled : Bool
  pub mode : SavingsMode
  pub amount : ℤ

abbrev pub max_fixed_savings_percent : ℤ
max_fixed_savings_percent = pos 90

-- The `switch` over the mode of an election that is enabled.
unfoldable pub is_invalid : SavingsPreferenceUpdate → Bool
is_invalid upd = elim upd.mode [
  | fixed_percent ↦ leb_ℤ upd.amount (pos 0) || ltb_ℤ max_fixed_savings_percent upd.amount
  | round_up ↦ leb_ℤ upd.amount (pos 0)
  | unlisted_mode ↦ true
]

abbrev pub elected : ℕ → SavingsPreferenceUpdate → EwaSavingsPreference
elected employee upd = record {
  employee_id = employee;
  enabled = upd.enabled;
  mode = upd.mode;
  percent = elim upd.mode [ fixed_percent ↦ upd.amount | round_up ↦ pos 0 | unlisted_mode ↦ pos 0 ];
  round_up_to_kobo = elim upd.mode [
    | fixed_percent ↦ pos 0
    | round_up ↦ upd.amount
    | unlisted_mode ↦ pos 0
  ];
}

-- An insert that replaces the row of the same worker.
abbrev pub upsert_savings :
    EwaSavingsPreference → List EwaSavingsPreference → List EwaSavingsPreference
upsert_savings pref [] = pref ∷ []
upsert_savings pref (p ∷ rest) =
    let later = upsert_savings pref rest in
    if p.employee_id == pref.employee_id then pref ∷ rest else p ∷ later

unfoldable pub set_savings_preference : ℕ → SavingsPreferenceUpdate → M EwaSavingsPreference
unfolding is_invalid
set_savings_preference employee upd = do
  fail_if (if upd.enabled then is_invalid upd else false) invalid_preference
  with_org_scope (do
    statement
    modify (λ s. record s { savings = upsert_savings (elected employee upd) s.savings })
    pure (elected employee upd))

-- The zero value of the struct.
abbrev pub no_savings : ℕ → EwaSavingsPreference
no_savings employee = record {
  employee_id = employee;
  enabled = false;
  mode = unlisted_mode;
  percent = pos 0;
  round_up_to_kobo = pos 0;
}

abbrev pub savings_or_none : ℕ → Option EwaSavingsPreference → EwaSavingsPreference
savings_or_none employee none = no_savings employee
savings_or_none employee (some pref) = pref

unfoldable pub savings_preference_tx : ℕ → M EwaSavingsPreference
savings_preference_tx employee = do
  statement
  gets (λ s. savings_or_none employee (find (λ p. p.employee_id == employee) s.savings))

unfoldable pub get_savings_preference : ℕ → M EwaSavingsPreference
unfolding savings_preference_tx
get_savings_preference employee = with_org_scope (savings_preference_tx employee)

unfoldable pub get_savings_balance : ℕ → M Kobo
get_savings_balance employee = with_org_scope (do
  currency ← org_currency_tx
  acct ← ensure_account (some employee) employee_savings currency
  balance ← account_balance acct.id
  pure balance.minor)

unfoldable pub round_up_delta : Kobo → Kobo → Kobo
round_up_delta net_pay unit =
    if Kobo.is_positive unit
    then (let remainder = rem net_pay unit in
        if eqb_ℤ remainder (pos 0) then pos 0 else sub64 unit remainder)
    else pos 0

-- The `switch` over the mode; the cases that divert nothing give zero.
unfoldable pub amount_to_divert : EwaSavingsPreference → Kobo → Result Kobo
unfolding round_up_delta
amount_to_divert pref net_pay = elim pref.mode [
  | fixed_percent ↦
      if leb_ℤ pref.percent (pos 0) then ok (pos 0) else Kobo.percent net_pay pref.percent (pos 100)
  | round_up ↦
      if Kobo.is_positive pref.round_up_to_kobo
      then ok (round_up_delta net_pay pref.round_up_to_kobo)
      else ok (pos 0)
  | unlisted_mode ↦ ok (pos 0)
]

unfoldable pub post_diversion : ℕ → ℕ → Kobo → M Kobo
post_diversion employee item amount = do
  currency ← org_currency_tx
  payable ← ensure_account (some employee) wage_payable currency
  savings ← ensure_account (some employee) employee_savings currency
  post_transaction (
      movement (record { prefix = ewa_savings; subject = item; item = none }) employee payable.id
        savings.id (kobo_in currency amount))
  pure amount

-- What follows the test that the election is enabled.
unfoldable pub divert : ℕ → ℕ → Kobo → EwaSavingsPreference → M Kobo
unfolding amount_to_divert post_diversion
divert employee item net_pay pref = do
  amount ← lift (amount_to_divert pref net_pay)
  if (if Kobo.is_positive amount then leb_ℤ net_pay amount else true)
      then pure (pos 0)
      else post_diversion employee item amount

unfoldable pub divert_savings_for_payroll_item : ℕ → ℕ → Kobo → M Kobo
unfolding savings_preference_tx divert
divert_savings_for_payroll_item employee item net_pay =
    if Kobo.is_positive net_pay
    then (savings_preference_tx employee >>= λ pref.
        if pref.enabled then divert employee item net_pay pref else pure (pos 0))
    else pure (pos 0)
