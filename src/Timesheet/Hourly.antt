-- ===== src/Timesheet/Hourly.antt =====
-- internal/services/hourly_pay_service.go: the gross pay of an hourly worker for a period.
use gopayrollengine.Base.{ℕ, Option, none, some, List, [], ◌∷◌, ◌++◌, ◌==◌, if◌then◌else◌}
use gopayrollengine.Base.Int.{ℤ, pos, ltb_ℤ, leb_ℤ}
use gopayrollengine.Base.Int64.{add64, sub64}
use gopayrollengine.Money as Kobo
use gopayrollengine.Money.{Kobo}
use gopayrollengine.Store.{
  TimeEntry, PayrollPolicy, M, pure, lift, gets, statement, if_found, ◌>>=◌, ◌>>◌,
}
use gopayrollengine.Timesheet.{
  Calendar, unpaid_approved_entries_through, paid_minutes_in_iso_week, default_payroll_policy,
  multiplier_bps,
}

unfoldable pub payroll_policy_tx : M PayrollPolicy
payroll_policy_tx = do
  statement
  gets (λ s. elim s.payroll_policy [ none ↦ default_payroll_policy | some policy ↦ policy ])

-- The part of an entry below the weekly threshold, of which `before` is worked already.
unfoldable pub regular_portion : ℤ → ℤ → ℤ → ℤ
regular_portion before minutes threshold =
    if leb_ℤ threshold before
    then pos 0
    else if ltb_ℤ threshold (add64 before minutes)
    then sub64 threshold before
    else minutes

-- The running totals of the loop; a week's minutes are seeded by a query at its first entry.
pub record Run : Type 0 where
  pub weeks : ℕ → Option ℤ
  pub regular_minutes : ℤ
  pub overtime_minutes : ℤ
  pub base_amounts : List Kobo
  pub premium_amounts : List Kobo
  pub entry_ids : List ℕ

abbrev pub set_week : ℕ → ℤ → (ℕ → Option ℤ) → ℕ → Option ℤ
set_week key minutes weeks week = if week == key then some minutes else weeks week

-- The premium of an entry's overtime, if there is one.
unfoldable pub premium_of : PayrollPolicy → Kobo → ℤ → M (List Kobo)
premium_of policy shift_rate overtime =
    let extra_bps = sub64 policy.overtime_multiplier_bps (pos 10000) in
    if ltb_ℤ (pos 0) overtime
    then if ltb_ℤ (pos 0) extra_bps
      then (lift (Kobo.percent shift_rate extra_bps (pos 10000)) >>= λ extra_rate.
          lift (Kobo.percent extra_rate overtime (pos 60)) >>= λ premium. pure (premium ∷ []))
      else pure []
    else pure []

-- One round of the loop.
unfoldable pub pay_entry : Calendar → PayrollPolicy → ℕ → Kobo → TimeEntry → Run → M Run
unfolding premium_of regular_portion
pay_entry calendar policy employee hourly_rate entry run = do
  let key = calendar.week_of entry.work_date
  before ← if_found (run.weeks key) (paid_minutes_in_iso_week calendar employee key) pure
  let portion =
      regular_portion before entry.minutes_worked policy.overtime_threshold_minutes_per_week
  let overtime = sub64 entry.minutes_worked portion
  shift_rate ← lift (Kobo.percent hourly_rate (multiplier_bps policy entry.shift_type) (pos 10000))
  entry_base ← lift (Kobo.percent shift_rate entry.minutes_worked (pos 60))
  premiums ← premium_of policy shift_rate overtime
  pure (record {
    weeks = set_week key (add64 before entry.minutes_worked) run.weeks;
    regular_minutes = add64 run.regular_minutes portion;
    overtime_minutes = add64 run.overtime_minutes overtime;
    base_amounts = run.base_amounts ++ entry_base ∷ [];
    premium_amounts = run.premium_amounts ++ premiums;
    entry_ids = run.entry_ids ++ entry.id ∷ [];
  })

unfoldable pub pay_entries : Calendar → PayrollPolicy → ℕ → Kobo → List TimeEntry → Run → M Run
unfolding pay_entry
pay_entries calendar policy employee hourly_rate [] run = pure run
pay_entries calendar policy employee hourly_rate (entry ∷ rest) run =
    pay_entry calendar policy employee hourly_rate entry run >>= λ next.
    pay_entries calendar policy employee hourly_rate rest next

pub record HourlyPayBreakdown : Type 0 where
  pub regular_minutes : ℤ
  pub overtime_minutes : ℤ
  pub base_kobo : Kobo
  pub overtime_premium_kobo : Kobo
  pub gross_kobo : Kobo
  pub entry_ids : List ℕ

abbrev pub no_run : Run
no_run = record {
  weeks = λ week. none;
  regular_minutes = pos 0;
  overtime_minutes = pos 0;
  base_amounts = [];
  premium_amounts = [];
  entry_ids = [];
}

unfoldable pub compute_hourly_gross : Calendar → ℕ → ℕ → ℕ → Kobo → M HourlyPayBreakdown
unfolding payroll_policy_tx pay_entries
compute_hourly_gross calendar employee period as_of hourly_rate = do
  policy ← payroll_policy_tx
  entries ← unpaid_approved_entries_through calendar employee period as_of
  run ← pay_entries calendar policy employee hourly_rate entries no_run
  base ← lift (Kobo.sum run.base_amounts)
  premium ← lift (Kobo.sum run.premium_amounts)
  gross ← lift (Kobo.add base premium)
  pure (record {
    regular_minutes = run.regular_minutes;
    overtime_minutes = run.overtime_minutes;
    base_kobo = base;
    overtime_premium_kobo = premium;
    gross_kobo = gross;
    entry_ids = run.entry_ids;
  })
