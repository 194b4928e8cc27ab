-- ===== src/Payroll/Closes.antt =====
-- The last settlement of a batch, where no statement fails (internal/services/payroll_settlement.go).
pub mod Rows
pub mod Runs
use gopayrollengine.Base.{ℕ, ◌≡◌, refl, ◌+◌, ap, ◌∙◌, Bool, true, false, ◌&&◌, Option, some, ◌==◌}
use gopayrollengine.Base.Lists.{find}
use gopayrollengine.Base.Result.{ok}
use gopayrollengine.Store.{Payroll, PayrollItem, PayrollStatus, processing, Store}
use gopayrollengine.Advance.{update_where, none_match}
use gopayrollengine.Payroll.{
  same_payroll_status, can_transition, counts_down, one_less, reconcile_payroll_status,
  reconcile_at_zero, settlement_action, settle_after, settle_payroll_item,
}
use gopayrollengine.Payroll.Closes.Rows.{
  outcome_in, Closing, find-counts, still-processing, closed-row,
}
use gopayrollengine.Payroll.Closes.Runs.{
  pure-runs, NoFaults, run-bind, transition_item-runs, race_lost-runs, append_audit-runs,
  stamp_item-runs, decrement_pending-runs, reconcile_payroll_status-runs,
}

reconcile_at_zero-closing :
    (payroll : ℕ) (p : Payroll)
    → p.id ≡ payroll
    → p.status ≡ processing
    → p.pending_count ≡ 1
    → reconcile_at_zero (some p) ≡ reconcile_payroll_status payroll processing
reconcile_at_zero-closing payroll p i st last = rw (last, i, st) refl

settle_after-closes :
    (item : PayrollItem) (next : PayrollStatus) (actor : Option ℕ) (p : Payroll) (s : Store)
    → NoFaults s
    → Closing item.payroll_id p s.payrolls
    → (t : Store) × (settle_after item next actor s ≡ (ok true, t))
      × (find (λ q. q.id == item.payroll_id) t.payrolls
          ≡ some (record p { status = outcome_in item.payroll_id t.items; pending_count = 0 }))
unfolding settle_after
settle_after-closes item next actor p s sound closing =
    let payroll = item.payroll_id in
    let (s1, stamped, same, sound1) = stamp_item-runs item.id next actor s sound in
    let closing1 : Closing payroll p s1.payrolls = rw same closing in
    let (found, i) = find-counts payroll p s1.payrolls closing1 in
    let s2 : Store = record s1 {
      payrolls = update_where (counts_down payroll) one_less s1.payrolls;
      tick = s1.tick + 1;
    } in
    let (s3, reconciles, rows, items, sound3) =
      reconcile_payroll_status-runs payroll s2 sound1
        (still-processing payroll p s1.payrolls closing1) in
    let (t, audited, rows4, items4, _) =
      append_audit-runs item.id (settlement_action actor) s3 sound3 in
    let closes = reconcile_at_zero-closing payroll p i closing1.status closing1.last in
    (
      t,
      run-bind _ _ s s1 stamped (
          run-bind _ _ s1 s2 (decrement_pending-runs payroll p s1 sound1 found) (
            run-bind _ _ s2 s3 (ap (λ m. m s2) closes ∙ reconciles)
              (run-bind _ _ s3 t audited (pure-runs true t)))),
      rw (rows4 ∙ rows, items4 ∙ items)
          (closed-row payroll p (outcome_in payroll s1.items) s1.payrolls closing1),
    )

-- Take a store in which no statement fails, an item in a status from which the next one can be
-- reached and which its row still has, and a batch of the item that is processing and waits for
-- one payment. Then SettlePayrollItem applies, and it leaves the batch with no payment to wait for
-- and closed: failed if a line of the batch has failed, else completed.
pub settle_payroll_item-closes :
    (item : PayrollItem) (next : PayrollStatus) (actor : Option ℕ) (p : Payroll) (s : Store)
    → NoFaults s
    → can_transition item.status next ≡ true
    → none_match (λ i. i.id == item.id && same_payroll_status i.status item.status) s.items ≡ false
    → Closing item.payroll_id p s.payrolls
    → (t : Store) × (settle_payroll_item item next actor s ≡ (ok true, t))
      × (find (λ q. q.id == item.payroll_id) t.payrolls
          ≡ some (record p { status = outcome_in item.payroll_id t.items; pending_count = 0 }))
unfolding settle_payroll_item
settle_payroll_item-closes item next actor p s sound edge hit closing =
    let pinned : PayrollItem → Bool =
      λ i. i.id == item.id && same_payroll_status i.status item.status in
    let s1 : Store = record s {
      items = update_where pinned (λ i. record i { status = next; updated_at = s.now }) s.items;
      tick = s.tick + 1;
    } in
    let moved = transition_item-runs item.id item.status next s sound edge hit in
    let (t, settled, row) = settle_after-closes item next actor p s1 sound closing in
    (t, run-bind _ _ s s1 (race_lost-runs _ s s1 moved) settled, row)
