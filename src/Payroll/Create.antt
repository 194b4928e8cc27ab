-- ===== src/Payroll/Create.antt =====
-- CreatePayroll of internal/services/payroll_service.go: a batch and its items, built in one
-- transaction. What queues the task after the commit is an argument, as is the registry's answer
-- whether some provider settles a currency.
use gopayrollengine.Base.{ℕ, Bool, not, ◌||◌, none, some, List, [], ◌∷◌, ◌++◌, ◌==◌, if◌then◌else◌}
use gopayrollengine.Base.Int.{pos}
use gopayrollengine.Base.Lists.{length, find, select, is_some}
use gopayrollengine.Base.Result.{
  duplicate_key, invalid_period, no_active_employees, unsupported_currency, negative_item,
  queue_unavailable,
}
use gopayrollengine.Money as Kobo
use gopayrollengine.Money.{Kobo}
use gopayrollengine.Money.Currency.{Currency}
use gopayrollengine.Store.{
  Employee, Payroll, PayrollItem, pending, completed, M, pure, fail, lift, gets, modify, fail_if,
  statement, draw_id, with_org_scope, ◌>>=◌, ◌>>◌,
}
use gopayrollengine.Advance.{org_currency_tx}
use gopayrollengine.Settle.{settle_advances_for_payroll_item}
use gopayrollengine.Savings.{divert_savings_for_payroll_item}
use gopayrollengine.Timesheet.{Calendar, mark_time_entries_paid}
use gopayrollengine.Timesheet.Hourly.{compute_hourly_gross}
use gopayrollengine.Payroll.{update_items, update_payrolls}

-- The month that a period's text parses to, given by its first day, must print as the same text:
-- `format` is Format(PeriodLayout) of package time.
unfoldable pub validate_period : Calendar → (ℕ → ℕ) → ℕ → M (Unit {0})
validate_period calendar format period = elim (calendar.start_of period) [
  | none ↦ fail invalid_period
  | some start ↦ fail_if (not (format start == period)) invalid_period
]

abbrev pub new_payroll : ℕ → ℕ → Payroll
new_payroll id period = record {
  id = id;
  period = period;
  total_amount = pos 0;
  status = pending;
  pending_count = 0;
}

-- The primary key, and the unique index idx_payrolls_period_org. Batches are never soft-deleted
-- here, so that the index's condition holds of every row.
abbrev pub clashes : Payroll → Payroll → Bool
clashes row p = p.id == row.id || p.period == row.period

unfoldable pub create_batch : Payroll → M (Unit {0})
create_batch row = do
  statement
  taken ← gets (λ s. find (clashes row) s.payrolls)
  fail_if (is_some taken) duplicate_key
  modify (λ s. record s { payrolls = s.payrolls ++ row ∷ [] })

abbrev pub new_item : ℕ → ℕ → ℕ → Kobo → ℕ → PayrollItem
new_item id payroll employee amount now = record {
  id = id;
  payroll_id = payroll;
  employee_id = employee;
  amount = amount;
  status = pending;
  attempt = 1;
  gross_kobo = none;
  advances_deducted_kobo = none;
  savings_kobo = none;
  sent_at = none;
  settled_at = none;
  updated_at = now;
  resolved_by = none;
}

unfoldable pub create_item : PayrollItem → M (Unit {0})
create_item row = do
  statement
  taken ← gets (λ s. find (λ i. i.id == row.id) s.items)
  fail_if (is_some taken) duplicate_key
  modify (λ s. record s { items = s.items ++ row ∷ [] })

-- The gross pay, and the entries that it pays for.
unfoldable pub gross_of : Calendar → ℕ → Employee → M (Kobo × List ℕ)
unfolding compute_hourly_gross
gross_of calendar period emp =
    if emp.is_hourly
    then (gets (λ s. s.now) >>= λ now.
        compute_hourly_gross calendar emp.id period now emp.hourly_rate_kobo >>= λ breakdown.
        pure (breakdown.gross_kobo, breakdown.entry_ids))
    else pure (emp.salary, [])

unfoldable pub after_advances : Kobo → Kobo → M Kobo
after_advances gross withheld =
    if Kobo.is_positive withheld
    then (lift (Kobo.sub gross withheld) >>= λ net.
        fail_if (Kobo.is_negative net) negative_item >> pure net)
    else pure gross

unfoldable pub after_savings : Kobo → Kobo → M Kobo
after_savings net diverted =
    if Kobo.is_positive diverted then lift (Kobo.sub net diverted) else pure net

-- The breakdown behind the net.
pub record Pay : Type 0 where
  pub gross : Kobo
  pub withheld : Kobo
  pub diverted : Kobo
  pub net : Kobo

-- The columns that the update of the item writes. An item with nothing to pay is settled now.
abbrev pub with_pay : Pay → ℕ → PayrollItem → PayrollItem
with_pay pay now i = record i {
  gross_kobo = some pay.gross;
  advances_deducted_kobo = some pay.withheld;
  savings_kobo = some pay.diverted;
  amount =
      if Kobo.is_positive pay.withheld || Kobo.is_positive pay.diverted then pay.net else i.amount;
  status = if Kobo.is_positive pay.net then i.status else completed;
  updated_at = now;
}

-- What follows the item's creation.
unfoldable pub net_item : ℕ → ℕ → ℕ → Kobo → M Pay
unfolding settle_advances_for_payroll_item divert_savings_for_payroll_item after_advances
    after_savings update_items
net_item employee period item gross = do
  withheld ← settle_advances_for_payroll_item employee period item gross
  left ← after_advances gross withheld
  diverted ← divert_savings_for_payroll_item employee item left
  net ← after_savings left diverted
  let pay : Pay = record { gross = gross; withheld = withheld; diverted = diverted; net = net }
  now ← gets (λ s. s.now)
  update_items (λ i. i.id == item) (with_pay pay now)
  pure pay

-- One round of the loop over the employees.
unfoldable pub pay_employee : Calendar → ℕ → ℕ → Employee → M Pay
unfolding gross_of create_item mark_time_entries_paid net_item
pay_employee calendar payroll period emp = do
  (gross, entry_ids) ← gross_of calendar period emp
  item ← draw_id
  now ← gets (λ s. s.now)
  create_item (new_item item payroll emp.id gross now)
  mark_time_entries_paid entry_ids item
  net_item emp.id period item gross

-- The loop collects the net amounts.
unfoldable pub pay_all : Calendar → ℕ → ℕ → List Employee → M (List Kobo)
unfolding pay_employee
pay_all calendar payroll period [] = pure []
pay_all calendar payroll period (emp ∷ rest) = do
  pay ← pay_employee calendar payroll period emp
  later ← pay_all calendar payroll period rest
  pure (pay.net ∷ later)

unfoldable pub create_payroll_tx : Calendar → (Currency → Bool) → ℕ → M Payroll
unfolding create_batch pay_all update_payrolls
create_payroll_tx calendar settles period = do
  -- The advisory lock of the organization's advances.
  statement
  currency ← org_currency_tx
  fail_if (not (settles currency)) unsupported_currency
  statement
  employees ← gets (λ s. select (λ e. e.is_active) s.employees)
  fail_if (length employees == 0) no_active_employees
  id ← draw_id
  create_batch (new_payroll id period)
  net_amounts ← pay_all calendar id period employees
  total ← lift (Kobo.sum net_amounts)
  update_payrolls (λ p. p.id == id) (λ p. record p { total_amount = total })
  pure (record (new_payroll id period) { total_amount = total })

-- The task is queued after the commit; a failure there leaves the batch pending.
unfoldable pub create_payroll : Calendar → (ℕ → ℕ) → (Currency → Bool) → Bool → ℕ → M Payroll
unfolding validate_period create_payroll_tx
create_payroll calendar format settles queued period = do
  validate_period calendar format period
  payroll ← with_org_scope (create_payroll_tx calendar settles period)
  fail_if (not queued) queue_unavailable
  pure payroll
