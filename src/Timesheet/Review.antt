-- ===== src/Timesheet/Review.antt =====
-- How an entry is submitted, approved and rejected (internal/services/time_entry_service.go).
use gopayrollengine.Base.{
  ℕ, Bool, true, false, not, ◌&&◌, ◌||◌, Option, none, some, List, [], ◌∷◌, ◌++◌, ltb, ◌==◌,
}
use gopayrollengine.Base.Int.{ℤ, pos, ltb_ℤ, leb_ℤ}
use gopayrollengine.Base.Int64.{in_range, add64}
use gopayrollengine.Base.Lists.{find, select, is_some}
use gopayrollengine.Base.Result.{
  Result, err, database, duplicate_key, stale_status, record_not_found, time_entry_invalid_range,
  time_entry_already_resolved, time_entry_invalid_shift, time_entry_day_overflow,
  time_entry_inactive, time_entry_not_hourly, time_entry_future_date,
}
use gopayrollengine.Store.{
  TimeEntry, TimeEntryStatus, entry_pending, entry_approved, entry_rejected, ShiftType,
  unlisted_shift, submitted_entry, approved_entry, rejected_entry, Store, M, pure, gets, or_fail,
  modify, fail_if, statement, draw_id, with_org_scope, ◌>>=◌, ◌>>◌,
}
use gopayrollengine.Advance.{append_audit}
use gopayrollengine.Timesheet.{Calendar, admits, transition_time_entry, minutes_of}

abbrev pub max_minutes_per_entry : ℤ
max_minutes_per_entry = pos 1440

abbrev pub counts_in_day : ℕ → ℕ → List TimeEntryStatus → Option ℕ → TimeEntry → Bool
counts_in_day employee day statuses excluded e =
    e.employee_id == employee
    && e.work_date == day
    && admits e.status statuses
    && not (elim excluded [ none ↦ false | some id ↦ e.id == id ])

unfoldable pub day_minutes : ℕ → ℕ → List TimeEntryStatus → Option ℕ → M ℤ
unfolding minutes_of admits
day_minutes employee day statuses excluded = do
  statement
  total ←
      gets (λ s. minutes_of (select (counts_in_day employee day statuses excluded) s.time_entries))
  fail_if (not (in_range total)) database
  pure total

abbrev pub is_listed : ShiftType → Bool
is_listed unlisted_shift = false
is_listed _ = true

abbrev pub new_entry : ℕ → ℕ → ℕ → ℤ → ShiftType → TimeEntry
new_entry id employee day minutes shift = record {
  id = id;
  employee_id = employee;
  work_date = day;
  minutes_worked = minutes;
  shift_type = shift;
  status = entry_pending;
  paid_payroll_item_id = none;
  approved_by = none;
  approved_at = none;
}

unfoldable pub create_entry : TimeEntry → M (Unit {0})
create_entry row = do
  statement
  taken ← gets (λ s. find (λ e. e.id == row.id) s.time_entries)
  fail_if (is_some taken) duplicate_key
  modify (λ s. record s { time_entries = s.time_entries ++ row ∷ [] })

-- The statements inside the transaction of a submission.
unfoldable pub submit_in_day : ℕ → ℕ → ℤ → ShiftType → M TimeEntry
unfolding day_minutes create_entry
submit_in_day employee day minutes shift = do
  statement
  found ← gets (λ s. find (λ e. e.id == employee) s.employees)
  emp ← or_fail found record_not_found
  fail_if (not emp.is_hourly) time_entry_not_hourly
  fail_if (not emp.is_active) time_entry_inactive
  -- The advisory lock of the worker's day.
  statement
  claimed ← day_minutes employee day (entry_pending ∷ entry_approved ∷ []) none
  fail_if (ltb_ℤ max_minutes_per_entry (add64 claimed minutes)) time_entry_day_overflow
  id ← draw_id
  create_entry (new_entry id employee day minutes shift)
  append_audit id submitted_entry
  pure (new_entry id employee day minutes shift)

-- An empty shift type is read as `regular` before.
unfoldable pub submit_time_entry : Calendar → ℕ → ℕ → ℤ → ShiftType → M TimeEntry
unfolding submit_in_day
submit_time_entry calendar employee work_date minutes shift = do
  fail_if (leb_ℤ minutes (pos 0) || ltb_ℤ max_minutes_per_entry minutes) time_entry_invalid_range
  fail_if (not (is_listed shift)) time_entry_invalid_shift
  now ← gets (λ s. s.now)
  fail_if (ltb (calendar.day_of now) (calendar.day_of work_date)) time_entry_future_date
  with_org_scope (submit_in_day employee (calendar.day_of work_date) minutes shift)

-- A lost race is told as an entry that was resolved already.
abbrev pub resolved_already {ℓ} : {A : Type ℓ} → Result A × Store → Result A × Store
resolved_already (err stale_status, s) = (err time_entry_already_resolved, s)
resolved_already r = r

unfoldable pub or_already_resolved {ℓ} : {A : Type ℓ} → M A → M A
or_already_resolved m s = resolved_already (m s)

unfoldable pub approve_time_entry : ℕ → ℕ → M TimeEntry
unfolding day_minutes transition_time_entry
approve_time_entry entry actor = with_org_scope (do
  statement
  found ← gets (λ s. find (λ e. e.id == entry) s.time_entries)
  e ← or_fail found record_not_found
  -- The advisory lock of the worker's day.
  statement
  approved_minutes ← day_minutes e.employee_id e.work_date (entry_approved ∷ []) (some e.id)
  fail_if (ltb_ℤ max_minutes_per_entry (add64 approved_minutes e.minutes_worked))
      time_entry_day_overflow
  done ← or_already_resolved (transition_time_entry e entry_pending entry_approved actor)
  append_audit e.id approved_entry
  pure done)

unfoldable pub reject_time_entry : ℕ → ℕ → M TimeEntry
unfolding transition_time_entry
reject_time_entry entry actor = with_org_scope (do
  statement
  found ← gets (λ s. find (λ e. e.id == entry) s.time_entries)
  e ← or_fail found record_not_found
  done ← or_already_resolved (transition_time_entry e entry_pending entry_rejected actor)
  append_audit e.id rejected_entry
  pure done)
