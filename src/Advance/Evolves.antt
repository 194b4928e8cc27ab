-- ===== src/Advance/Evolves.antt =====
-- The rows of advances through the operations of internal/models/ewa.go and ewa_ledger.go.
use gopayrollengine.Base.{
  ℕ, ◌≡◌, refl, ap, ◌∙◌, Bool, true, false, not, ◌&&◌, List, [], ◌∷◌, ◌++◌, Option, ◌==◌, ◌⊎◌,
  if◌then◌else◌, arith, Bool-cases, inl, inr,
}
use gopayrollengine.Store.{
  EwaAdvance, AdvanceStatus, AdvanceStatus-discrete, settled, declined, cancelled, written_off,
  Store, modify, DeclineReason, AuditAction, AuditEvent, AccountType,
}
use gopayrollengine.Store.Keeps.{
  Keeps, IgnoresTick, Keeps-modify, Keeps-bind, Keeps-guard, keeps_rules,
}
use gopayrollengine.Ledger.Frame.{IgnoresBooks, post_transaction_frame, ensure_account_frame}
use gopayrollengine.Money.Currency.{Currency}
use gopayrollengine.Ledger.{PostingRequest, post_transaction, ensure_account}
use gopayrollengine.Advance.{
  same_status, can_transition_advance, update_where, stamped, update_advances, transition_advance,
  cancel_advance, write_off_advance, confirm_disbursed, append_audit, org_currency_tx, with_reason,
}

-- Zero or more legal edges.
pub data Reaches (from : AdvanceStatus) : AdvanceStatus → Type 0 where
  here : Reaches from from
  onward :
      {via to : AdvanceStatus}
      → Reaches from via
      → can_transition_advance via to ≡ true
      → Reaches from to

-- The states that no edge leaves.
abbrev pub is_terminal : AdvanceStatus → Bool
is_terminal settled = true
is_terminal declined = true
is_terminal cancelled = true
is_terminal written_off = true
is_terminal _ = false

no_edge :
    (via to : AdvanceStatus) → is_terminal via ≡ true → can_transition_advance via to ≡ true → ⊥
unfolding can_transition_advance AdvanceStatus-discrete
no_edge via to end edge = ground arith

-- An advance that is settled, declined, cancelled or written off stays what it is, along any
-- sequence of legal edges.
pub terminal-Reaches :
    (from to : AdvanceStatus) → Reaches from to → is_terminal from ≡ true → to ≡ from
terminal-Reaches from to here end = refl
terminal-Reaches from to (onward {via} path edge) end =
    let same = terminal-Reaches from via path end in
    absurd (no_edge via to (ap is_terminal same ∙ end) edge)

-- A row and what became of it.
pub record Follows (a b : EwaAdvance) : Type 0 where
  pub id : b.id ≡ a.id
  pub employee : b.employee_id ≡ a.employee_id
  pub amount : b.amount_kobo ≡ a.amount_kobo
  pub status : Reaches a.status b.status

-- Row by row; rows may be added at the end.
abbrev pub Evolves : List EwaAdvance → List EwaAdvance → Type 0
Evolves [] later = Unit
Evolves (a ∷ rows) [] = ⊥
Evolves (a ∷ rows) (b ∷ later) = Follows a b × Evolves rows later

pub Evolves-refl : (rows : List EwaAdvance) → Evolves rows rows
Evolves-refl [] = tt
Evolves-refl (a ∷ rows) =
    (record { id = refl; employee = refl; amount = refl; status = here }, Evolves-refl rows)

-- The statement that every row of `base` has evolved legally.
pub record EvolvedFrom (base : List EwaAdvance) (s : Store) : Type 0 where
  pub rows : Evolves base s.advances

-- A change that follows one edge at most, and keeps the identity and the amount.
pub record IsLegal (wanted : EwaAdvance → Bool) (change : EwaAdvance → EwaAdvance) : Type 0 where
  pub id : (a : EwaAdvance) → (change a).id ≡ a.id
  pub employee : (a : EwaAdvance) → (change a).employee_id ≡ a.employee_id
  pub amount : (a : EwaAdvance) → (change a).amount_kobo ≡ a.amount_kobo
  pub status :
      (a : EwaAdvance)
      → wanted a ≡ true
      → ((change a).status ≡ a.status) ⊎ (can_transition_advance a.status (change a).status ≡ true)

module _ (wanted : EwaAdvance → Bool) (change : EwaAdvance → EwaAdvance)
    (legal : IsLegal wanted change) where
  Follows-change : (a b : EwaAdvance) → Follows a b → Follows a (if wanted b then change b else b)
  Follows-change a b f = elim (Bool-cases (wanted b)) [
    | inl hit ↦ rw hit (record {
      id = legal.id b ∙ f.id;
      employee = legal.employee b ∙ f.employee;
      amount = legal.amount b ∙ f.amount;
      status = moved (legal.status b hit);
    })
    | inr miss ↦ rw miss f
  ]
    where
      moved :
          ((change b).status ≡ b.status)
            ⊎ (can_transition_advance b.status (change b).status ≡ true)
          → Reaches a.status (change b).status
      moved (inl same) = rw same f.status
      moved (inr edge) = onward f.status edge

  Evolves-update :
      (base rows : List EwaAdvance)
      → Evolves base rows
      → Evolves base (update_where wanted change rows)
  Evolves-update [] rows h = tt
  Evolves-update (a ∷ base) [] h = absurd h
  Evolves-update (a ∷ base) (b ∷ rows) h = (Follows-change a b h.0, Evolves-update base rows h.1)

  update_rows :
      (base : List EwaAdvance)
      → Keeps
          (EvolvedFrom base)
          (modify (λ s. record s { advances = update_where wanted change s.advances }))
  update_rows base = Keeps-modify _ (λ s h. record { rows = Evolves-update base s.advances h.rows })

pub IgnoresTick-EvolvedFrom : (base : List EwaAdvance) → IgnoresTick (EvolvedFrom base)
IgnoresTick-EvolvedFrom base = record { at = λ s n h. record { rows = h.rows } }

pub IgnoresBooks-EvolvedFrom : (base : List EwaAdvance) → IgnoresBooks (EvolvedFrom base)
IgnoresBooks-EvolvedFrom base = record {
  tick = IgnoresTick-EvolvedFrom base;
  accounts = λ s rows h. record { rows = h.rows };
  transactions = λ s rows h. record { rows = h.rows };
  entries = λ s rows h. record { rows = h.rows };
  audits = λ s rows h. record { rows = h.rows };
}

module _ (base : List EwaAdvance) where
  pub update_advances-EvolvedFrom :
      (wanted : EwaAdvance → Bool) (change : EwaAdvance → EwaAdvance)
      → IsLegal wanted change
      → Keeps (EvolvedFrom base) (update_advances wanted change)
  unfolding update_advances
  update_advances-EvolvedFrom wanted change legal =
      search (keeps_rules, IgnoresTick-EvolvedFrom, update_rows wanted change legal)

-- What a transition writes into a row.
stamped-status :
    (now : ℕ) (next : AdvanceStatus) (a : EwaAdvance) → (stamped now next a).status ≡ next
stamped-status now next a = ground arith

-- The columns of a transition follow one edge of the rows that it is pinned to.
stamped-IsLegal :
    (id now : ℕ) (current next : AdvanceStatus)
    → can_transition_advance current next ≡ true
    → IsLegal (λ a. a.id == id && same_status a.status current) (stamped now next)
stamped-IsLegal id now current next edge = record {
  id = λ a. ground arith;
  employee = λ a. ground arith;
  amount = λ a. ground arith;
  status = λ a pinned. inr (rw (stamped-status now next a) (pinned_edge a pinned));
}
  where
    pinned_edge :
        (a : EwaAdvance)
        → (a.id == id && same_status a.status current) ≡ true
        → can_transition_advance a.status next ≡ true
    pinned_edge a pinned = ground arith

-- A change of other columns.
module _ (wanted : EwaAdvance → Bool) (change : EwaAdvance → EwaAdvance)
    (keep : (a : EwaAdvance)
      → ((change a).id ≡ a.id)
        × ((change a).employee_id ≡ a.employee_id)
        × ((change a).amount_kobo ≡ a.amount_kobo)
        × ((change a).status ≡ a.status)) where
  pub other_columns-IsLegal : IsLegal wanted change
  other_columns-IsLegal = record {
    id = λ a. (keep a).0;
    employee = λ a. (keep a).1;
    amount = λ a. (keep a).2;
    status = λ a _. inl (keep a).3;
  }

module _ (base : List EwaAdvance) where
  pub transition_advance-EvolvedFrom :
      (adv : EwaAdvance) (current next : AdvanceStatus)
      → Keeps (EvolvedFrom base) (transition_advance adv current next)
  unfolding transition_advance
  transition_advance-EvolvedFrom adv current next =
      Keeps-guard _ _ _ λ legal. search (keeps_rules, pinned_update legal)
    where
      pinned_update :
          not (can_transition_advance current next) ≡ false
          → (now : ℕ)
          → Keeps (EvolvedFrom base) (
              update_advances
                (λ a. a.id == adv.id && same_status a.status current)
                (stamped now next))
      pinned_update legal now =
          update_advances-EvolvedFrom base _ _
            (stamped-IsLegal adv.id now current next (ground arith))

  insert_audit :
      (row : AuditEvent)
      → Keeps (EvolvedFrom base) (modify (λ s. record s { audits = s.audits ++ row ∷ [] }))
  insert_audit row = Keeps-modify _ (λ s h. record { rows = h.rows })

  pub append_audit-EvolvedFrom :
      (entity : ℕ) (action : AuditAction) → Keeps (EvolvedFrom base) (append_audit entity action)
  unfolding append_audit
  append_audit-EvolvedFrom entity action =
      search (keeps_rules, IgnoresTick-EvolvedFrom, insert_audit)

  pub org_currency_tx-EvolvedFrom : Keeps (EvolvedFrom base) org_currency_tx
  unfolding org_currency_tx
  org_currency_tx-EvolvedFrom = search (keeps_rules, IgnoresTick-EvolvedFrom)

  pub reason-EvolvedFrom :
      (id : ℕ) (reason : DeclineReason)
      → Keeps (EvolvedFrom base) (update_advances (λ a. a.id == id) (with_reason reason))
  reason-EvolvedFrom id reason =
      update_advances-EvolvedFrom base _ _
        (other_columns-IsLegal _ _ (λ a. (refl, refl, refl, refl)))

  -- Posting and opening accounts change no advance.
  pub post-EvolvedFrom : (req : PostingRequest) → Keeps (EvolvedFrom base) (post_transaction req)
  post-EvolvedFrom = post_transaction_frame (IgnoresBooks-EvolvedFrom base)

  pub account-EvolvedFrom :
      (employee : Option ℕ) (kind : AccountType) (currency : Currency)
      → Keeps (EvolvedFrom base) (ensure_account employee kind currency)
  account-EvolvedFrom = ensure_account_frame (IgnoresBooks-EvolvedFrom base)

  pub ruleset advance_steps = (
    keeps_rules, IgnoresTick-EvolvedFrom, transition_advance-EvolvedFrom, reason-EvolvedFrom,
    org_currency_tx-EvolvedFrom, append_audit-EvolvedFrom, post-EvolvedFrom, account-EvolvedFrom,
  )

  pub cancel_advance-EvolvedFrom :
      (adv : EwaAdvance) (from : AdvanceStatus) (reason : DeclineReason)
      → Keeps (EvolvedFrom base) (cancel_advance adv from reason)
  unfolding cancel_advance
  cancel_advance-EvolvedFrom adv from reason = search (advance_steps) depth 10

  pub write_off_advance-EvolvedFrom :
      (adv : EwaAdvance) (reason : DeclineReason)
      → Keeps (EvolvedFrom base) (write_off_advance adv reason)
  unfolding write_off_advance
  write_off_advance-EvolvedFrom adv reason = search (advance_steps) depth 10

  confirm_disbursed-EvolvedFrom :
      (adv : EwaAdvance) → Keeps (EvolvedFrom base) (confirm_disbursed adv)
  unfolding confirm_disbursed
  confirm_disbursed-EvolvedFrom adv = search (advance_steps)
