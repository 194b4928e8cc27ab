-- ===== src/Payroll/Retry.antt =====
-- RetryFailedItems of internal/services/payroll_lifecycle_service.go.
use gopayrollengine.Base.{
  ℕ, ◌+◌, Bool, false, not, ◌&&◌, ◌||◌, none, List, [], ◌∷◌, ◌==◌, map, if◌then◌else◌,
}
use gopayrollengine.Base.Lists.{length, find, select}
use gopayrollengine.Base.Result.{
  stale_status, record_not_found, not_retryable, nothing_to_retry, queue_unavailable,
}
use gopayrollengine.Store.{
  Employee, PayrollItem, pending, failed, retry_failed, M, pure, gets, or_fail, modify, fail_if,
  statement, with_org_scope, ◌>>=◌, ◌>>◌,
}
use gopayrollengine.Advance.{append_audit, update_where}
use gopayrollengine.Timesheet.{among}
use gopayrollengine.Payroll.{same_payroll_status}

-- The employees that the map has as active; a missing key reads as false.
unfoldable pub is_active_in : List Employee → ℕ → Bool
is_active_in [] employee = false
is_active_in (e ∷ rest) employee = (e.id == employee && e.is_active) || is_active_in rest employee

pub record RetryResult : Type 0 where
  pub retrying : ℕ
  pub skipped : List ℕ

-- The lines to resend.
unfoldable pub retried : List Employee → List PayrollItem → List PayrollItem
unfolding is_active_in
retried emps items = select (λ it. is_active_in emps it.employee_id) items

-- The employees whose lines are skipped.
unfoldable pub skipped_of : List Employee → List PayrollItem → List ℕ
unfolding is_active_in
skipped_of emps items =
    map (λ it. it.employee_id) (select (λ it. not (is_active_in emps it.employee_id)) items)

abbrev pub released : ℕ → PayrollItem → PayrollItem
released now i = record i {
  status = pending;
  attempt = i.attempt + 1;
  sent_at = none;
  settled_at = none;
  updated_at = now;
}

abbrev pub is_retried : List ℕ → PayrollItem → Bool
is_retried ids i = among ids i.id && same_payroll_status i.status failed

-- UPDATE payroll_items, which must change a row for each line.
unfoldable pub release : List ℕ → M (Unit {0})
release ids = do
  statement
  now ← gets (λ s. s.now)
  affected ← gets (λ s. length (select (is_retried ids) s.items))
  modify (λ s. record s { items = update_where (is_retried ids) (released now) s.items })
  fail_if (not (affected == length ids)) stale_status

abbrev pub is_failed_of : ℕ → PayrollItem → Bool
is_failed_of payroll i = i.payroll_id == payroll && same_payroll_status i.status failed

-- The query for the employees is made where a line failed.
unfoldable pub employees_of : List PayrollItem → M (List Employee)
employees_of items =
    if length items == 0
    then pure []
    else statement
      >> gets (λ s. select (λ e. among (map (λ i. i.employee_id) items) e.id) s.employees)

unfoldable pub retry_tx : ℕ → M RetryResult
unfolding employees_of retried skipped_of release
retry_tx payroll = do
  -- The advisory lock of the batch.
  statement
  statement
  found ← gets (λ s. find (λ p. p.id == payroll) s.payrolls)
  batch ← or_fail found record_not_found
  fail_if (not (same_payroll_status batch.status failed)) not_retryable
  statement
  lines ← gets (λ s. select (is_failed_of payroll) s.items)
  emps ← employees_of lines
  let retry = map (λ i. i.id) (retried emps lines)
  if length retry == 0 then pure tt else release retry
  statement
  waiting ← gets (λ s.
      length
        (select (λ i. i.payroll_id == payroll && same_payroll_status i.status pending) s.items))
  if waiting == 0 then pure tt else append_audit payroll retry_failed
  pure (record { retrying = waiting; skipped = skipped_of emps lines })

-- Nothing was waiting, or the task could not be queued after the commit.
unfoldable pub retry_failed_items : Bool → ℕ → M RetryResult
unfolding retry_tx
retry_failed_items queued payroll = do
  result ← with_org_scope (retry_tx payroll)
  fail_if (result.retrying == 0) nothing_to_retry
  fail_if (not queued) queue_unavailable
  pure result
