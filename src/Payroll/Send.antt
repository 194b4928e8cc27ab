-- ===== src/Payroll/Send.antt =====
-- internal/workers/payroll_worker.go: how a batch is handed to the bank. The bank's answer to the
-- bulk transfer is an argument; the lines that it is sent are returned.
use gopayrollengine.Base.{ℕ, Bool, not, ◌&&◌, ◌||◌, none, some, List, [], ◌==◌, map, if◌then◌else◌}
use gopayrollengine.Base.Lists.{length, find, select, is_some}
use gopayrollengine.Base.Result as Result
use gopayrollengine.Base.Result.{stale_status, record_not_found, outcome_unknown, provider_rejected}
use gopayrollengine.Store.{
  Employee, Payroll, PayrollItem, pending, processing, failed, reconciled, M, pure, fail, gets,
  or_fail, modify, fail_if, statement, race_lost, with_org_scope, ◌>>=◌, ◌>>◌,
}
use gopayrollengine.Advance.{append_audit, update_where}
use gopayrollengine.Timesheet.{among}
use gopayrollengine.Payroll.{
  same_payroll_status, update_items, update_payrolls, transition_payroll, outcome_of,
}

abbrev pub is_waiting : ℕ → PayrollItem → Bool
is_waiting payroll i = i.payroll_id == payroll && same_payroll_status i.status pending

abbrev pub has_employee : List Employee → PayrollItem → Bool
has_employee emps i = is_some (find (λ e. e.id == i.employee_id) emps)

abbrev pub ids_of : List PayrollItem → List ℕ
ids_of items = map (λ i. i.id) items

-- The query for the employees is made where an item is unsettled.
unfoldable pub payees : List PayrollItem → M (List Employee)
payees unsettled =
    if length unsettled == 0
    then pure []
    else statement
      >> gets (λ s. select (λ e. among (map (λ i. i.employee_id) unsettled) e.id) s.employees)

-- The status and the counter, in one update pinned to the statuses that may be sent.
abbrev pub may_send : ℕ → Payroll → Bool
may_send payroll p =
    p.id == payroll && (same_payroll_status p.status pending || same_payroll_status p.status failed)

abbrev pub is_marked : List ℕ → PayrollItem → Bool
is_marked ids i = among ids i.id && same_payroll_status i.status pending

abbrev pub sent : ℕ → PayrollItem → PayrollItem
sent now i = record i { status = processing; sent_at = some now; updated_at = now }

-- The update of the items, which must change a row for each.
unfoldable pub mark_processing : List ℕ → M (Unit {0})
mark_processing ids = if length ids == 0 then pure tt else (do
  statement
  now ← gets (λ s. s.now)
  affected ← gets (λ s. length (select (is_marked ids) s.items))
  modify (λ s. record s { items = update_where (is_marked ids) (sent now) s.items })
  fail_if (not (affected == length ids)) stale_status)

unfoldable pub fail_orphaned : List ℕ → M (Unit {0})
unfolding update_items
fail_orphaned ids =
    if length ids == 0
    then pure tt
    else (gets (λ s. s.now) >>= λ now.
        update_items (is_marked ids) (λ i. record i { status = failed; updated_at = now })
        >> pure tt)

-- Phase 1: the result is what is to be sent.
unfoldable pub claim_batch : ℕ → M (List PayrollItem)
unfolding payees update_payrolls mark_processing fail_orphaned
claim_batch payroll = do
  statement
  found ← gets (λ s. find (λ p. p.id == payroll) s.payrolls)
  batch ← or_fail found record_not_found
  statement
  unsettled ← gets (λ s. select (is_waiting payroll) s.items)
  emps ← payees unsettled
  let sendable = select (has_employee emps) unsettled
  let orphaned = select (λ i. not (has_employee emps i)) unsettled
  untouched ←
      update_payrolls (may_send payroll)
        (λ p. record p { status = processing; pending_count = length sendable })
  fail_if untouched stale_status
  mark_processing (ids_of sendable)
  fail_orphaned (ids_of orphaned)
  pure sendable

unfoldable pub finalize_payroll : ℕ → M (Unit {0})
unfolding transition_payroll
finalize_payroll payroll = do
  statement
  found ← gets (λ s. find (λ p. p.id == payroll) s.payrolls)
  batch ← or_fail found record_not_found
  statement
  failed_count ← gets (λ s.
      length (select (λ i. i.payroll_id == payroll && same_payroll_status i.status failed) s.items))
  lost ← race_lost (transition_payroll payroll batch.status (outcome_of failed_count))
  if lost then pure tt else append_audit payroll reconciled

abbrev pub is_sent : ℕ → PayrollItem → Bool
is_sent payroll i = i.payroll_id == payroll && same_payroll_status i.status processing

unfoldable pub fail_batch_before_send : ℕ → M (Unit {0})
unfolding transition_payroll update_items
fail_batch_before_send payroll = with_org_scope (do
  transition_payroll payroll processing failed
  now ← gets (λ s. s.now)
  update_items (is_sent payroll)
      (λ i. record i { status = pending; sent_at = none; updated_at = now })
  pure tt)

-- What the bank answers: it took the batch, it did not, or nobody knows.
pub data BulkAnswer : Type 0 where
  accepted rejected unknown : BulkAnswer

-- An error of the clean-up is only logged.
abbrev pub or_logged : M (Unit {0}) → M (Unit {0})
or_logged m s = (let (r, t) = m s in (Result.ok tt, t))

unfoldable pub process_payroll : (List PayrollItem → BulkAnswer) → ℕ → M (List PayrollItem)
unfolding claim_batch finalize_payroll fail_batch_before_send
process_payroll bank payroll = do
  sendable ← with_org_scope (claim_batch payroll)
  if length sendable == 0
      then (with_org_scope (finalize_payroll payroll) >> pure [])
      else elim (bank sendable) [
        | accepted ↦ pure sendable
        | rejected ↦ or_logged (fail_batch_before_send payroll) >> fail provider_rejected
        | unknown ↦ fail outcome_unknown
      ]
