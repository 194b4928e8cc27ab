-- ===== src/Timesheet.antt =====
-- internal/models/time_entry.go and payroll_policy.go: the hours that hourly workers log, and the
-- queries that payroll reads.
pub mod Hourly
pub mod Paid
pub mod Split
pub mod Review
use gopayrollengine.Base.{
  ℕ, ◌+◌, Bool, true, false, not, ◌&&◌, ◌||◌, Option, none, some, List, [], ◌∷◌, ltb, leb, ◌==◌,
  if◌then◌else◌,
}
use gopayrollengine.Base.Int.{ℤ, pos, ◌+ℤ◌}
use gopayrollengine.Base.Int64.{in_range, add64}
use gopayrollengine.Base.Lists.{length, select, is_some}
use gopayrollengine.Base.Result.{
  Result, ok, err, database, invalid_transition, stale_status, invalid_format,
}
use gopayrollengine.Store.{
  TimeEntry, TimeEntryStatus, TimeEntryStatus-discrete, entry_pending, entry_approved,
  entry_rejected, ShiftType, night, weekend, holiday, PayrollPolicy, M, pure, lift, gets, or_fail,
  modify, fail_if, statement, ◌>>=◌, ◌>>◌,
}
use gopayrollengine.Advance.{update_where, none_match}

-- What the code takes of the package `time`: days as counts, a period's first day (none where
-- the text does not parse) and the first day after it, the day of an instant, and a number for a
-- day's ISO year and week.
pub record Calendar : Type 0 where
  pub start_of : ℕ → Option ℕ
  pub end_of : ℕ → Option ℕ
  pub day_of : ℕ → ℕ
  pub week_of : ℕ → ℕ

abbrev pub same_entry_status : TimeEntryStatus → TimeEntryStatus → Bool
same_entry_status a b = elim (TimeEntryStatus-discrete a b) [ yes e ↦ true | no ne ↦ false ]

unfoldable pub valid_time_entry_transitions : TimeEntryStatus → List TimeEntryStatus
valid_time_entry_transitions entry_pending = entry_approved ∷ entry_rejected ∷ []
valid_time_entry_transitions entry_approved = []
valid_time_entry_transitions entry_rejected = []

-- The loop over the allowed targets.
unfoldable pub admits : TimeEntryStatus → List TimeEntryStatus → Bool
admits to [] = false
admits to (allowed ∷ rest) = same_entry_status allowed to || admits to rest

unfoldable pub can_transition_time_entry : TimeEntryStatus → TimeEntryStatus → Bool
unfolding valid_time_entry_transitions admits
can_transition_time_entry from to = admits to (valid_time_entry_transitions from)

-- The columns that a transition writes; the reason of a rejection is text.
abbrev pub reviewed : ℕ → TimeEntryStatus → ℕ → TimeEntry → TimeEntry
reviewed now entry_approved actor e = record e {
  status = entry_approved;
  approved_by = some actor;
  approved_at = some now;
}
reviewed now next actor e = record e { status = next }

unfoldable pub update_entries : (TimeEntry → Bool) → (TimeEntry → TimeEntry) → M Bool
update_entries wanted change = do
  statement
  untouched ← gets (λ s. none_match wanted s.time_entries)
  modify (λ s. record s { time_entries = update_where wanted change s.time_entries })
  pure untouched

unfoldable pub transition_time_entry :
    TimeEntry → TimeEntryStatus → TimeEntryStatus → ℕ → M TimeEntry
unfolding update_entries
transition_time_entry entry current next actor = do
  fail_if (not (can_transition_time_entry current next)) invalid_transition
  now ← gets (λ s. s.now)
  untouched ←
      update_entries (λ e. e.id == entry.id && same_entry_status e.status current)
        (reviewed now next actor)
  fail_if untouched stale_status
  pure (reviewed now next actor entry)

unfoldable pub period_upper_bound : Calendar → ℕ → ℕ → Result ℕ
period_upper_bound calendar period as_of = elim (calendar.end_of period) [
  | none ↦ err invalid_format
  | some end ↦
      let upper_exclusive = calendar.day_of as_of + 1 in
      if ltb end upper_exclusive then ok end else ok upper_exclusive
]

-- ORDER BY work_date ASC, id ASC.
abbrev pub is_before : TimeEntry → TimeEntry → Bool
is_before a b = ltb a.work_date b.work_date || (a.work_date == b.work_date && leb a.id b.id)

abbrev pub insert_by_date : TimeEntry → List TimeEntry → List TimeEntry
insert_by_date a [] = a ∷ []
insert_by_date a (b ∷ rest) =
    let later = insert_by_date a rest in if is_before a b then a ∷ b ∷ rest else b ∷ later

unfoldable pub by_date : List TimeEntry → List TimeEntry
by_date [] = []
by_date (a ∷ rest) = insert_by_date a (by_date rest)

abbrev pub is_approved_of : ℕ → TimeEntry → Bool
is_approved_of employee e = e.employee_id == employee && same_entry_status e.status entry_approved

unfoldable pub approved_entries_for_period : Calendar → ℕ → ℕ → ℕ → M (List TimeEntry)
unfolding period_upper_bound by_date
approved_entries_for_period calendar employee period as_of = do
  start ← or_fail (calendar.start_of period) invalid_format
  upper_exclusive ← lift (period_upper_bound calendar period as_of)
  statement
  gets (λ s. by_date (
      select
        (λ e. is_approved_of employee e && leb start e.work_date && ltb e.work_date upper_exclusive)
        s.time_entries))

abbrev pub is_unpaid : ℕ → ℕ → TimeEntry → Bool
is_unpaid employee upper_exclusive e =
    is_approved_of employee e
    && not (is_some e.paid_payroll_item_id)
    && ltb e.work_date upper_exclusive

unfoldable pub unpaid_approved_entries_through : Calendar → ℕ → ℕ → ℕ → M (List TimeEntry)
unfolding period_upper_bound by_date
unpaid_approved_entries_through calendar employee period as_of = do
  upper_exclusive ← lift (period_upper_bound calendar period as_of)
  statement
  gets (λ s. by_date (select (is_unpaid employee upper_exclusive) s.time_entries))

-- SUM(minutes_worked) over some rows.
unfoldable pub minutes_of : List TimeEntry → ℤ
minutes_of [] = pos 0
minutes_of (e ∷ rest) = e.minutes_worked +ℤ minutes_of rest

unfoldable pub paid_minutes_in_iso_week : Calendar → ℕ → ℕ → M ℤ
unfolding minutes_of
paid_minutes_in_iso_week calendar employee week = do
  statement
  total ← gets (λ s. minutes_of (
      select
        (λ e.
          is_approved_of employee e
          && is_some e.paid_payroll_item_id
          && calendar.week_of e.work_date == week)
        s.time_entries))
  -- A sum beyond int64 does not scan into the variable.
  fail_if (not (in_range total)) database
  pure total

-- IN
abbrev pub among : List ℕ → ℕ → Bool
among [] id = false
among (a ∷ rest) id = a == id || among rest id

unfoldable pub mark_time_entries_paid : List ℕ → ℕ → M (Unit {0})
unfolding update_entries
mark_time_entries_paid entry_ids item =
    if length entry_ids == 0
    then pure tt
    else update_entries (λ e. among entry_ids e.id)
        (λ e. record e { paid_payroll_item_id = some item })
      >> pure tt

-- The loop of the sum.
unfoldable pub sum_minutes_from : ℤ → List TimeEntry → ℤ
sum_minutes_from total [] = total
sum_minutes_from total (e ∷ rest) = sum_minutes_from (add64 total e.minutes_worked) rest

unfoldable pub sum_approved_minutes : Calendar → ℕ → ℕ → ℕ → M ℤ
unfolding sum_minutes_from approved_entries_for_period
sum_approved_minutes calendar employee period as_of = do
  entries ← approved_entries_for_period calendar employee period as_of
  pure (sum_minutes_from (pos 0) entries)

abbrev pub default_payroll_policy : PayrollPolicy
default_payroll_policy = record {
  overtime_threshold_minutes_per_week = pos 2400;
  overtime_multiplier_bps = pos 15000;
  night_shift_multiplier_bps = pos 10000;
  weekend_shift_multiplier_bps = pos 10000;
  holiday_shift_multiplier_bps = pos 10000;
}

unfoldable pub multiplier_bps : PayrollPolicy → ShiftType → ℤ
multiplier_bps p night = p.night_shift_multiplier_bps
multiplier_bps p weekend = p.weekend_shift_multiplier_bps
multiplier_bps p holiday = p.holiday_shift_multiplier_bps
multiplier_bps p _ = pos 10000
