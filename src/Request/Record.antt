-- ===== src/Request/Record.antt =====
-- RequestAdvance, which records the decision (internal/services/ewa_service.go).
use gopayrollengine.Base.{
  ℕ, Bool, false, ◌&&◌, Option, none, some, [], ◌∷◌, ◌++◌, ◌==◌, if◌then◌else◌,
}
use gopayrollengine.Base.Int.{pos}
use gopayrollengine.Base.Lists.{find, is_some}
use gopayrollengine.Base.Result.{duplicate_key, declined_request}
use gopayrollengine.Money.{Kobo}
use gopayrollengine.Store.{
  DeclineReason, EwaAdvance, declined, approved, advance_declined, advance_approved, M, pure, gets,
  modify, fail_if, statement, draw_id, if_found, with_org_scope, ◌>>=◌, ◌>>◌,
}
use gopayrollengine.Advance.{append_audit, same_status}
use gopayrollengine.Settle.{post_advance_ledger}
use gopayrollengine.Request.{Earned, Assessment, Eligibility, eligibility_tx, decide}

abbrev pub advance_record :
    ℕ → ℕ → ℕ → Kobo → Option ℕ → ℕ → Eligibility → Option DeclineReason → EwaAdvance
advance_record id employee period amount key now el reason = record {
  id = id;
  employee_id = employee;
  period = period;
  amount_kobo = amount;
  fee_kobo = pos 0;
  status = if is_some reason then declined else approved;
  recovered_kobo = pos 0;
  accrued_at_request = el.accrued_to_date;
  available_at_request = el.available;
  dependency_score = el.assessment.score;
  dependency_tier = el.assessment.tier;
  decline_reason = reason;
  idempotency_key = key;
  settled_payroll_item_id = none;
  provider_name = none;
  provider_reference = none;
  requested_at = now;
  disbursed_at = none;
  settled_at = none;
}

unfoldable pub create_advance : EwaAdvance → M (Unit {0})
create_advance row = do
  statement
  taken ← gets (λ s. find (λ a. a.id == row.id) s.advances)
  fail_if (is_some taken) duplicate_key
  modify (λ s. record s { advances = s.advances ++ row ∷ [] })

-- A decline is recorded; an approval is posted to the ledger as well.
unfoldable pub record_decision : ℕ → EwaAdvance → M EwaAdvance
unfolding create_advance
record_decision employee row =
    if is_some row.decline_reason
    then create_advance row >> append_audit row.id advance_declined >> pure row
    else create_advance row
      >> post_advance_ledger employee row
      >> append_audit row.id advance_approved
      >> pure row

unfoldable pub decide_request : M Earned → M Assessment → ℕ → ℕ → Kobo → Option ℕ → M EwaAdvance
unfolding eligibility_tx decide record_decision
decide_request earned assess employee period amount key = do
  now ← gets (λ s. s.now)
  el ← eligibility_tx earned assess employee period now
  id ← draw_id
  record_decision employee (advance_record id employee period amount key now el (decide el amount))

abbrev pub is_replay : ℕ → Option ℕ → EwaAdvance → Bool
is_replay employee none a = false
is_replay employee (some key) a =
    a.employee_id == employee && elim a.idempotency_key [ none ↦ false | some k ↦ k == key ]

-- Without a key there is no query.
unfoldable pub earlier_request : ℕ → Option ℕ → M (Option EwaAdvance)
earlier_request employee none = pure none
earlier_request employee (some key) =
    statement >> gets (λ s. find (is_replay employee (some key)) s.advances)

-- The transaction: the advisory lock, the replay of an earlier request, and the decision.
unfoldable pub request_advance_tx : M Earned → M Assessment → ℕ → ℕ → Kobo → Option ℕ → M EwaAdvance
unfolding decide_request earlier_request
request_advance_tx earned assess employee period amount key = do
  statement
  existing ← earlier_request employee key
  if_found existing (decide_request earned assess employee period amount key) pure

-- A recorded decline is told as an error after the transaction has committed.
unfoldable pub request_advance : M Earned → M Assessment → ℕ → ℕ → Kobo → Option ℕ → M EwaAdvance
unfolding request_advance_tx
request_advance earned assess employee period amount key = do
  advance ← with_org_scope (request_advance_tx earned assess employee period amount key)
  fail_if (same_status advance.status declined) declined_request
  pure advance
