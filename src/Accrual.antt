-- ===== src/Accrual.antt =====
-- internal/services/ewa_service.go: what a worker has earned so far, by working days, by approved
-- hours, or along a predicted pay cycle.
pub mod Days
pub mod Grows
pub mod Share
use gopayrollengine.Base.{
  ℕ, zero, suc, ◌+◌, ◌-◌, Bool, true, false, not, ◌&&◌, ◌||◌, Option, none, some, ltb, leb, ◌==◌,
  if◌then◌else◌,
}
use gopayrollengine.Base.Int.{ℤ, pos}
use gopayrollengine.Base.Int64.{in_range}
use gopayrollengine.Base.Lists.{select}
use gopayrollengine.Base.Result.{Result, ok, err, database, invalid_format}
use gopayrollengine.Money as Kobo
use gopayrollengine.Money.{Kobo}
use gopayrollengine.Store.{
  Employee, ewa_disabled, DeclineReason, no_salary_on_file, M, pure, fail, lift, gets, statement,
  fail_if, ◌>>=◌, ◌>>◌,
}
use gopayrollengine.Timesheet.{Calendar, sum_approved_minutes, minutes_of, is_approved_of}
use gopayrollengine.Request.{Income, Earned, earns, no_basis}

-- time.Saturday and time.Sunday.
abbrev pub saturday : ℕ
saturday = 6

abbrev pub sunday : ℕ
sunday = 0

unfoldable pub is_working : ℕ → Bool
is_working weekday = not (weekday == saturday) && not (weekday == sunday)

-- The loop, from the day `d`; none where it has not ended within the fuel.
unfoldable pub count_days : (ℕ → ℕ) → ℕ → ℕ → ℕ → ℕ → Option ℕ
unfolding is_working
count_days weekday zero d to count = none
count_days weekday (suc fuel) d to count =
    let later =
      count_days weekday fuel (d + 1) to (if is_working (weekday d) then count + 1 else count) in
    if ltb d to then later else some count

-- Both bounds are the starts of days. One round more than the days between is enough fuel.
unfoldable pub working_days_between : (ℕ → ℕ) → ℕ → ℕ → ℕ
unfolding count_days
working_days_between weekday from to = elim (count_days weekday (suc (to - from)) from to 0) [
  | none ↦ 0
  | some count ↦ count
]

-- The accrual of a salary over the days from `start` to `end`, on the day `today`.
unfoldable pub accrued_in : (ℕ → ℕ) → Kobo → ℕ → ℕ → ℕ → Result Kobo
unfolding working_days_between
accrued_in weekday salary start end today =
    let total = working_days_between weekday start end in
    let elapsed = working_days_between weekday start today in
    if not (Kobo.is_positive salary)
    then ok (pos 0)
    else if total == 0
    then ok (pos 0)
    else if ltb today start
    then ok (pos 0)
    else if not (ltb today end)
    then ok salary
    else if elapsed == 0
    then ok (pos 0)
    else Kobo.percent salary (pos elapsed) (pos total)

unfoldable pub accrued_to_date : Calendar → (ℕ → ℕ) → Kobo → ℕ → ℕ → Result Kobo
unfolding accrued_in
accrued_to_date calendar weekday salary period as_of = elim (calendar.start_of period) [
  | none ↦ err invalid_format
  | some start ↦ elim (calendar.end_of period) [
    | none ↦ err invalid_format
    | some end ↦ accrued_in weekday salary start end (calendar.day_of as_of)
  ]
]

-- The arguments are the days of the three instants; a day has 24 hours.
unfoldable pub d2c_accrued_to_date : Kobo → ℕ → ℕ → ℕ → Result Kobo
d2c_accrued_to_date avg_amount period_start next_predicted as_of =
    if not (Kobo.is_positive avg_amount)
    then ok (pos 0)
    else if leb next_predicted period_start
    then ok (pos 0)
    else if ltb as_of period_start
    then ok (pos 0)
    else if not (ltb as_of next_predicted)
    then ok avg_amount
    else if leb as_of period_start
    then ok (pos 0)
    else Kobo.percent avg_amount (pos (as_of - period_start)) (pos (next_predicted - period_start))

unfoldable pub accrued_hourly_to_date_tx : Calendar → ℕ → Kobo → ℕ → ℕ → M Kobo
unfolding sum_approved_minutes
accrued_hourly_to_date_tx calendar employee hourly_rate period as_of = do
  minutes ← sum_approved_minutes calendar employee period as_of
  lift (Kobo.percent hourly_rate minutes (pos 60))

abbrev pub trailing_days : ℕ
trailing_days = 90

-- The trailing average; the sum of the query is within an int64, or does not scan.
unfoldable pub hourly_monthly_earnings_basis_tx : Calendar → ℕ → Kobo → ℕ → M Kobo
unfolding minutes_of
hourly_monthly_earnings_basis_tx calendar employee hourly_rate as_of = do
  let today = calendar.day_of as_of
  statement
  total ← gets (λ s. minutes_of (
      select
        (λ e.
          is_approved_of employee e
          && leb today (e.work_date + trailing_days)
          && ltb e.work_date (today + 1))
        s.time_entries))
  fail_if (not (in_range total)) database
  earned ← lift (Kobo.percent hourly_rate total (pos 60))
  lift (Kobo.percent earned (pos 1) (pos 3))

abbrev pub wage_of : Employee → Kobo
wage_of emp = if emp.is_hourly then emp.hourly_rate_kobo else emp.salary

-- The income of a worker whom the organization pays; hourly pay is earned once it is approved.
unfoldable pub payroll_income : Calendar → (ℕ → ℕ) → Employee → ℕ → ℕ → M Earned
unfolding accrued_to_date accrued_hourly_to_date_tx hourly_monthly_earnings_basis_tx
payroll_income calendar weekday emp period as_of =
    if not (Kobo.is_positive (wage_of emp))
    then pure (no_basis no_salary_on_file)
    else if emp.is_hourly
    then hourly_income
    else (lift (accrued_to_date calendar weekday emp.salary period as_of) >>= λ accrued. pure (
        earns (record {
          monthly_salary = emp.salary;
          accrued = accrued;
          period_earnings_basis = emp.salary;
        })))
  where
    hourly_income : M Earned
    hourly_income = do
      basis ← hourly_monthly_earnings_basis_tx calendar emp.id emp.hourly_rate_kobo as_of
      accrued ← accrued_hourly_to_date_tx calendar emp.id emp.hourly_rate_kobo period as_of
      pure (
          earns
            (record { monthly_salary = basis; accrued = accrued; period_earnings_basis = accrued }))
