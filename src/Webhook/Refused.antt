-- ===== src/Webhook/Refused.antt =====
-- A success that reports another amount (internal/api/handlers/webhook_handler.go).
use gopayrollengine.Base.{ℕ, ◌≡◌, ◌≢◌, refl, ap, true, false, [], ◌∷◌, ◌++◌, if◌then◌else◌, arith}
use gopayrollengine.Base.Int.{pos, eqb_ℤ}
use gopayrollengine.Base.Result.{Result, ok, err}
use gopayrollengine.Money.{Kobo}
use gopayrollengine.Money.Text.{from_naira_string}
use gopayrollengine.Store.{
  AuditEvent, AuditAction, amount_mismatch, PayrollItem, completed, failed, Store, modify,
  with_org_scope,
}
use gopayrollengine.Store.Keeps.{
  Keeps, IgnoresTick, Keeps-modify, keeps_rules, with_org_scope-Keeps,
}
use gopayrollengine.Text.{Text}
use gopayrollengine.Advance.{append_audit}
use gopayrollengine.Payroll.{same_payroll_status}
use gopayrollengine.Webhook.{
  Reply, status_ok, unprocessable, bad_request, disbursement_successful, MonnifyWebhookPayload,
  Handler, reply, answer, refuse_mismatch, if_amount_matches, settle_by_callback, item_callback,
}

-- The state is that of before, but for audit events and the count of statements.
pub record OnlyAudited (base s : Store) : Type 0 where
  pub same : s ≡ record base { audits = s.audits; tick = s.tick }

module _ (base : Store) where
  tick : IgnoresTick (OnlyAudited base)
  tick = record {
    at = λ s n h. record { same = ap {A = Store} (λ r. record r { tick = n }) h.same };
  }

  audit_row :
      (row : AuditEvent)
      → Keeps (OnlyAudited base) (modify (λ s. record s { audits = s.audits ++ row ∷ [] }))
  audit_row row = Keeps-modify _ (λ s h. record {
    same = ap {A = Store} (λ r. record r { audits = s.audits ++ row ∷ [] }) h.same;
  })

  append_audit-OnlyAudited :
      (entity : ℕ) (action : AuditAction) → Keeps (OnlyAudited base) (append_audit entity action)
  unfolding append_audit
  append_audit-OnlyAudited entity action = search (keeps_rules, tick, audit_row)

-- A refusal: the answer asks for the callback again.
pub record IsRefused (s : Store) (r : Reply × Store) : Type 0 where
  pub state : OnlyAudited s r.1
  pub answer : r.0 ≢ status_ok

refuse_mismatch-IsRefused : (id : ℕ) (s : Store) → IsRefused s (refuse_mismatch id s)
unfolding refuse_mismatch answer
refuse_mismatch-IsRefused id s = go (with_org_scope (append_audit id amount_mismatch) s).0 (
    (with_org_scope-Keeps _ (tick s) (append_audit-OnlyAudited s id amount_mismatch)).at s
      (record { same = refl }))
  where
    go :
        (r : Result (Unit {0})) {t : Store}
        → OnlyAudited s t
        → IsRefused s (elim r [ ok a ↦ (unprocessable, t) | err e ↦ (unprocessable, t) ])
    go (ok a) h = record { state = h; answer = λ e. absurd cc }
    go (err x) h = record { state = h; answer = λ e. absurd cc }

-- The reported text is not the amount that was asked for.
abbrev pub Mismatches : Text → Kobo → Type 0
Mismatches reported expected =
    (disbursed : Kobo)
    → from_naira_string reported ≡ ok disbursed
    → eqb_ℤ disbursed expected ≡ false

if_amount_matches-IsRefused :
    (reported : Text) (expected : Kobo) (id : ℕ) (apply : Handler) (s : Store)
    → Mismatches reported expected
    → IsRefused s (if_amount_matches reported expected id apply s)
unfolding if_amount_matches
if_amount_matches-IsRefused reported expected id apply s differs =
    go (from_naira_string reported) refl
  where
    go :
        (r : Result Kobo)
        → from_naira_string reported ≡ r
        → IsRefused s (
            let h : Handler = elim r [
              | err e ↦ reply bad_request
              | ok disbursed ↦ if eqb_ℤ disbursed expected then apply else refuse_mismatch id
            ] in
            h s)
    go (err x) e = record { state = record { same = refl }; answer = λ q. absurd cc }
    go (ok d) e = rw (differs d e) (refuse_mismatch-IsRefused id s)

same_attempt : (n : ℕ) → eqb_ℤ (pos n) (pos n) ≡ true
same_attempt n = ground arith

-- A callback that reports a success for an item that is still waiting, in its current attempt,
-- with an amount that is not the item's, or that cannot be read, is not answered by 200, and it
-- changes nothing but the audit trail: no item is settled, no batch closed and nothing posted.
pub item_callback-mismatch :
    (payload : MonnifyWebhookPayload) (item : PayrollItem) (s : Store)
    → same_payroll_status item.status completed ≡ false
    → same_payroll_status item.status failed ≡ false
    → payload.event_type ≡ disbursement_successful
    → Mismatches payload.amount item.amount
    → IsRefused s (item_callback payload (pos item.attempt) item s)
unfolding item_callback
item_callback-mismatch payload item s c f e differs =
    rw (same_attempt item.attempt, c, f, e)
      (if_amount_matches-IsRefused payload.amount item.amount item.id
        (settle_by_callback item completed) s differs)
