-- ===== src/Payroll/Once/Employees.antt =====
-- The payment of the employees by CreatePayroll (internal/services/payroll_service.go).
use gopayrollengine.Base.{ℕ, refl, Bool, List, [], ◌∷◌, ◌++◌}
use gopayrollengine.Base.Int.{ℤ}
use gopayrollengine.Money.{Kobo}
use gopayrollengine.Store.{Payroll, PayrollItem, TimeEntry, PayrollPolicy, Employee, modify}
use gopayrollengine.Store.Keeps.{Keeps, Keeps-bind, keeps_rules, Keeps-pure}
use gopayrollengine.Advance.{update_where}
use gopayrollengine.Timesheet.{Calendar, unpaid_approved_entries_through, paid_minutes_in_iso_week}
use gopayrollengine.Timesheet.Hourly.{
  Run, payroll_policy_tx, premium_of, pay_entry, pay_entries, compute_hourly_gross,
}
use gopayrollengine.Payroll.{update_items}
use gopayrollengine.Payroll.Create.{
  create_item, gross_of, after_advances, after_savings, net_item, pay_employee, pay_all,
}
use gopayrollengine.Payroll.Once.{
  Batches, elsewhere, once_rules, settle-Keeps, divert-Keeps, mark-Keeps,
}

module _ {Q : List Payroll → Type 0} where
  item_rows :
      (wanted : PayrollItem → Bool) (change : PayrollItem → PayrollItem)
      → Keeps (Batches Q) (modify (λ s. record s { items = update_where wanted change s.items }))
  item_rows wanted change = elsewhere _ (λ s. refl)

  new_item_row :
      (row : PayrollItem)
      → Keeps (Batches Q) (modify (λ s. record s { items = s.items ++ row ∷ [] }))
  new_item_row row = elsewhere _ (λ s. refl)

  update_items-Keeps :
      (wanted : PayrollItem → Bool) (change : PayrollItem → PayrollItem)
      → Keeps (Batches Q) (update_items wanted change)
  unfolding update_items
  update_items-Keeps wanted change = search (once_rules, item_rows)

  create_item-Keeps : (row : PayrollItem) → Keeps (Batches Q) (create_item row)
  unfolding create_item
  create_item-Keeps row = search (once_rules, new_item_row) depth 9

  minutes-Keeps :
      (calendar : Calendar) (employee week : ℕ)
      → Keeps (Batches Q) (paid_minutes_in_iso_week calendar employee week)
  unfolding paid_minutes_in_iso_week
  minutes-Keeps calendar employee week = search once_rules depth 9

  entries-Keeps :
      (calendar : Calendar) (employee period as_of : ℕ)
      → Keeps (Batches Q) (unpaid_approved_entries_through calendar employee period as_of)
  unfolding unpaid_approved_entries_through
  entries-Keeps calendar employee period as_of = search once_rules depth 9

  policy-Keeps : Keeps (Batches Q) payroll_policy_tx
  unfolding payroll_policy_tx
  policy-Keeps = search once_rules

  premium-Keeps :
      (policy : PayrollPolicy) (rate : Kobo) (overtime : ℤ)
      → Keeps (Batches Q) (premium_of policy rate overtime)
  unfolding premium_of
  premium-Keeps policy rate overtime = search once_rules depth 12

  pay_entry-Keeps :
      (calendar : Calendar) (policy : PayrollPolicy) (employee : ℕ) (rate : Kobo)
      (entry : TimeEntry) (run : Run)
      → Keeps (Batches Q) (pay_entry calendar policy employee rate entry run)
  unfolding pay_entry
  pay_entry-Keeps calendar policy employee rate entry run =
      search (once_rules, minutes-Keeps, premium-Keeps) depth 14

  pay_entries-Keeps :
      (calendar : Calendar) (policy : PayrollPolicy) (employee : ℕ) (rate : Kobo)
      (entries : List TimeEntry) (run : Run)
      → Keeps (Batches Q) (pay_entries calendar policy employee rate entries run)
  unfolding pay_entries
  pay_entries-Keeps calendar policy employee rate [] run = search keeps_rules
  pay_entries-Keeps calendar policy employee rate (entry ∷ rest) run =
      Keeps-bind _ _ (pay_entry-Keeps calendar policy employee rate entry run)
        λ next. pay_entries-Keeps calendar policy employee rate rest next

  gross-Keeps :
      (calendar : Calendar) (employee period as_of : ℕ) (rate : Kobo)
      → Keeps (Batches Q) (compute_hourly_gross calendar employee period as_of rate)
  unfolding compute_hourly_gross
  gross-Keeps calendar employee period as_of rate =
      search (once_rules, policy-Keeps, entries-Keeps, pay_entries-Keeps) depth 14

  gross_of-Keeps :
      (calendar : Calendar) (period : ℕ) (emp : Employee)
      → Keeps (Batches Q) (gross_of calendar period emp)
  unfolding gross_of
  gross_of-Keeps calendar period emp = search (once_rules, gross-Keeps) depth 9

  after_advances-Keeps : (gross withheld : Kobo) → Keeps (Batches Q) (after_advances gross withheld)
  unfolding after_advances
  after_advances-Keeps gross withheld = search once_rules depth 9

  after_savings-Keeps : (net diverted : Kobo) → Keeps (Batches Q) (after_savings net diverted)
  unfolding after_savings
  after_savings-Keeps net diverted = search once_rules

  net_item-Keeps :
      (employee period item : ℕ) (gross : Kobo)
      → Keeps (Batches Q) (net_item employee period item gross)
  unfolding net_item
  net_item-Keeps employee period item gross =
      search
        (
          once_rules, settle-Keeps, after_advances-Keeps, divert-Keeps, after_savings-Keeps,
          update_items-Keeps,
        )
        depth 14

  pay_employee-Keeps :
      (calendar : Calendar) (payroll period : ℕ) (emp : Employee)
      → Keeps (Batches Q) (pay_employee calendar payroll period emp)
  unfolding pay_employee
  pay_employee-Keeps calendar payroll period emp =
      search (once_rules, gross_of-Keeps, create_item-Keeps, mark-Keeps, net_item-Keeps) depth 14

  pub pay_all-Keeps :
      (calendar : Calendar) (payroll period : ℕ) (emps : List Employee)
      → Keeps (Batches Q) (pay_all calendar payroll period emps)
  unfolding pay_all
  pay_all-Keeps calendar payroll period [] = search keeps_rules
  pay_all-Keeps calendar payroll period (emp ∷ rest) =
      Keeps-bind _ _ (pay_employee-Keeps calendar payroll period emp)
        λ pay. Keeps-bind _ _ (pay_all-Keeps calendar payroll period rest) λ later. Keeps-pure _
