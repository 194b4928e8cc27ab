-- ===== src/Payroll.antt =====
-- internal/models/models.go, payroll_item.go, and internal/services/payroll_settlement.go: the
-- payroll batches and their items, and how an item is settled.
pub mod Summary
pub mod Settled
pub mod Lost
pub mod Closes
pub mod Create
pub mod Net
pub mod Once
pub mod Reference
pub mod Life
pub mod Retry
pub mod Send
use gopayrollengine.Base.{
  ℕ, suc, ◌+◌, ◌-◌, Bool, true, false, not, ◌&&◌, ◌||◌, Option, none, some, List, [], ◌∷◌, ◌++◌,
  ltb, leb, ◌==◌, if◌then◌else◌,
}
use gopayrollengine.Base.Int.{ℤ, pos}
use gopayrollengine.Base.Lists.{length, find, select, is_some}
use gopayrollengine.Base.Result.{
  Result, ok, err, database, invalid_transition, stale_status, record_not_found, not_resolvable,
  not_yet_stuck, invalid_resolution,
}
use gopayrollengine.Money as Kobo
use gopayrollengine.Money.{Kobo}
use gopayrollengine.Store.{
  Payroll, PayrollItem, PayrollStatus, PayrollStatus-discrete, pending, processing, completed,
  failed, AuditAction, status_change, manually_resolved, reconciled, Store, M, pure, fail, lift,
  gets, or_fail, modify, fail_if, statement, race_lost, if_found, with_org_scope, ◌>>=◌, ◌>>◌,
}
use gopayrollengine.Advance.{append_audit, update_where, none_match}

abbrev pub same_payroll_status : PayrollStatus → PayrollStatus → Bool
same_payroll_status a b = elim (PayrollStatus-discrete a b) [ yes e ↦ true | no ne ↦ false ]

unfoldable pub valid_transitions : PayrollStatus → List PayrollStatus
valid_transitions pending = processing ∷ failed ∷ []
valid_transitions processing = completed ∷ failed ∷ []
valid_transitions failed = pending ∷ processing ∷ []
valid_transitions completed = []

-- The loop over the allowed targets.
unfoldable pub lists : PayrollStatus → List PayrollStatus → Bool
lists to [] = false
lists to (allowed ∷ rest) = same_payroll_status allowed to || lists to rest

unfoldable pub can_transition : PayrollStatus → PayrollStatus → Bool
unfolding valid_transitions lists
can_transition from to = lists to (valid_transitions from)

-- UPDATE payroll_items; the result says whether no row was affected.
unfoldable pub update_items : (PayrollItem → Bool) → (PayrollItem → PayrollItem) → M Bool
update_items wanted change = do
  statement
  untouched ← gets (λ s. none_match wanted s.items)
  modify (λ s. record s { items = update_where wanted change s.items })
  pure untouched

-- UPDATE payrolls.
unfoldable pub update_payrolls : (Payroll → Bool) → (Payroll → Payroll) → M Bool
update_payrolls wanted change = do
  statement
  untouched ← gets (λ s. none_match wanted s.payrolls)
  modify (λ s. record s { payrolls = update_where wanted change s.payrolls })
  pure untouched

-- TransitionStatus of an item; the status column and its time are written.
unfoldable pub transition_item : ℕ → PayrollStatus → PayrollStatus → M (Unit {0})
unfolding update_items
transition_item item current next = do
  fail_if (not (can_transition current next)) invalid_transition
  now ← gets (λ s. s.now)
  untouched ←
      update_items (λ i. i.id == item && same_payroll_status i.status current)
        (λ i. record i { status = next; updated_at = now })
  fail_if untouched stale_status

-- TransitionStatus of a batch.
unfoldable pub transition_payroll : ℕ → PayrollStatus → PayrollStatus → M (Unit {0})
unfolding update_payrolls
transition_payroll payroll current next = do
  fail_if (not (can_transition current next)) invalid_transition
  untouched ←
      update_payrolls (λ p. p.id == payroll && same_payroll_status p.status current)
        (λ p. record p { status = next })
  fail_if untouched stale_status

abbrev pub outcome_of : ℕ → PayrollStatus
outcome_of failed_count = if ltb 0 failed_count then failed else completed

unfoldable pub reconcile_payroll_status : ℕ → PayrollStatus → M (Unit {0})
unfolding transition_payroll
reconcile_payroll_status payroll status = do
  statement
  failed_count ← gets (λ s.
      length (select (λ i. i.payroll_id == payroll && same_payroll_status i.status failed) s.items))
  lost ← race_lost (transition_payroll payroll status (outcome_of failed_count))
  if lost then pure tt else append_audit payroll reconciled

-- The columns that a settlement stamps beside the status; an actor stands for a manual one.
abbrev pub settlement_stamp : ℕ → PayrollStatus → Option ℕ → PayrollItem → PayrollItem
settlement_stamp now next actor i = record i {
  settled_at = if same_payroll_status next completed then some now else i.settled_at;
  resolved_by = if is_some actor then actor else i.resolved_by;
  updated_at = now;
}

unfoldable pub stamp_item : ℕ → PayrollStatus → Option ℕ → M (Unit {0})
unfolding update_items
stamp_item item next actor =
    if same_payroll_status next completed || is_some actor
    then (gets (λ s. s.now) >>= λ now.
        update_items (λ i. i.id == item) (settlement_stamp now next actor) >> pure tt)
    else pure tt

abbrev pub counts_down : ℕ → Payroll → Bool
counts_down payroll p = p.id == payroll && ltb 0 p.pending_count

abbrev pub one_less : Payroll → Payroll
one_less p = record p { pending_count = p.pending_count - 1 }

-- UPDATE ... RETURNING: the row as it was read, when there is one.
unfoldable pub decrement_pending : ℕ → M (Option Payroll)
decrement_pending payroll = do
  statement
  row ← gets (λ s. find (counts_down payroll) s.payrolls)
  modify (λ s. record s { payrolls = update_where (counts_down payroll) one_less s.payrolls })
  pure row

-- Only the settler that counts to zero reconciles the batch.
abbrev pub reconcile_at_zero : Option Payroll → M (Unit {0})
reconcile_at_zero none = pure tt
reconcile_at_zero (some p) =
    if (one_less p).pending_count == 0 then reconcile_payroll_status p.id p.status else pure tt

abbrev pub settlement_action : Option ℕ → AuditAction
settlement_action actor = if is_some actor then manually_resolved else status_change

-- What follows the item's transition.
unfoldable pub settle_after : PayrollItem → PayrollStatus → Option ℕ → M Bool
unfolding stamp_item decrement_pending reconcile_payroll_status
settle_after item next actor = do
  stamp_item item.id next actor
  post ← decrement_pending item.payroll_id
  reconcile_at_zero post
  append_audit item.id (settlement_action actor)
  pure true

-- The result is `applied`.
unfoldable pub settle_payroll_item : PayrollItem → PayrollStatus → Option ℕ → M Bool
unfolding transition_item settle_after
settle_payroll_item item next actor = do
  lost ← race_lost (transition_item item.id item.status next)
  if lost then pure false else settle_after item next actor

pub data ResolveOutcome : Type 0 where
  resolve_paid resolve_failed unlisted_outcome : ResolveOutcome

abbrev pub resolved_status : ResolveOutcome → Option PayrollStatus
resolved_status resolve_paid = some completed
resolved_status resolve_failed = some failed
resolved_status unlisted_outcome = none

abbrev pub since : PayrollItem → ℕ
since i = elim i.sent_at [ none ↦ i.updated_at | some at ↦ at ]

-- now.Sub(since) > StuckAfter
abbrev pub is_stuck : ℕ → ℕ → PayrollItem → Bool
is_stuck stuck_after now i = ltb (since i + stuck_after) now

-- The note and the evidence are text, of which the code tests that it is there.
unfoldable pub resolve_item : ℕ → ℕ → ℕ → ResolveOutcome → Bool → Bool → ℕ → M PayrollItem
unfolding settle_payroll_item
resolve_item stuck_after payroll item outcome note evidence actor = do
  next ← or_fail (resolved_status outcome) invalid_resolution
  fail_if (not note) invalid_resolution
  fail_if (same_payroll_status next failed && not evidence) invalid_resolution
  with_org_scope (do
    -- The advisory lock of the batch.
    statement
    statement
    found ← gets (λ s. find (λ i. i.payroll_id == payroll && i.id == item) s.items)
    row ← or_fail found record_not_found
    fail_if (not (same_payroll_status row.status processing)) not_resolvable
    now ← gets (λ s. s.now)
    fail_if (not (is_stuck stuck_after now row)) not_yet_stuck
    applied ← settle_payroll_item row next (some actor)
    fail_if (not applied) not_resolvable
    statement
    resolved ← gets (λ s. find (λ i. i.id == item) s.items)
    or_fail resolved record_not_found)

pub data PayrollOutcome : Type 0 where
  outcome_pending in_progress paid partially_paid outcome_failed : PayrollOutcome

pub record PayrollSummary : Type 0 where
  pub outcome : PayrollOutcome
  pub paid : ℕ
  pub failed : ℕ
  pub processing : ℕ
  pub pending : ℕ
  pub paid_kobo : Kobo
  pub failed_kobo : Kobo
  pub stuck : Bool

-- What the loop over the items collects.
pub record Tally : Type 0 where
  pub paid : List Kobo
  pub failed : List Kobo
  pub processing : ℕ
  pub pending : ℕ
  pub stuck : Bool

unfoldable pub count_item : ℕ → ℕ → PayrollItem → Tally → Tally
count_item stuck_after now it t = elim it.status [
  | completed ↦ record t { paid = t.paid ++ it.amount ∷ [] }
  | failed ↦ record t { failed = t.failed ++ it.amount ∷ [] }
  | processing ↦ record t {
    processing = t.processing + 1;
    stuck = is_stuck stuck_after now it || t.stuck;
  }
  | pending ↦ record t { pending = t.pending + 1 }
]

unfoldable pub count_items : ℕ → ℕ → List PayrollItem → Tally → Tally
unfolding count_item
count_items stuck_after now [] t = t
count_items stuck_after now (it ∷ rest) t =
    count_items stuck_after now rest (count_item stuck_after now it t)

-- The sum, or zero where it overflows.
abbrev pub sum_or_zero : List Kobo → Kobo
sum_or_zero amounts = elim (Kobo.sum amounts) [ ok total ↦ total | err e ↦ pos 0 ]

abbrev pub outcome_for : PayrollStatus → Kobo → PayrollOutcome
outcome_for pending paid_kobo = outcome_pending
outcome_for processing paid_kobo = in_progress
outcome_for completed paid_kobo = paid
outcome_for failed paid_kobo = if Kobo.is_positive paid_kobo then partially_paid else outcome_failed

abbrev pub no_items : Tally
no_items = record { paid = []; failed = []; processing = 0; pending = 0; stuck = false }

unfoldable pub summarize_payroll : ℕ → Payroll → List PayrollItem → ℕ → PayrollSummary
unfolding count_items
summarize_payroll stuck_after p items now =
    let t = count_items stuck_after now items no_items in
    record {
      outcome = outcome_for p.status (sum_or_zero t.paid);
      paid = length t.paid;
      failed = length t.failed;
      processing = t.processing;
      pending = t.pending;
      paid_kobo = sum_or_zero t.paid;
      failed_kobo = sum_or_zero t.failed;
      stuck = t.stuck;
    }
