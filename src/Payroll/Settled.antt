-- ===== src/Payroll/Settled.antt =====
-- The items through a settlement (internal/services/payroll_settlement.go).
use gopayrollengine.Base.{
  ℕ, ◌≡◌, refl, ◌∙◌, Bool, true, false, not, ◌&&◌, List, [], ◌∷◌, ◌++◌, Option, some, none, ◌==◌,
  arith, if◌then◌else◌, Bool-cases, inl, inr,
}
use gopayrollengine.Store.{
  Payroll, PayrollItem, PayrollStatus, completed, Store, AuditEvent, AuditAction, modify,
}
use gopayrollengine.Store.Keeps.{Keeps, IgnoresTick, Keeps-modify, Keeps-guard, keeps_rules}
use gopayrollengine.Advance.{append_audit, update_where}
use gopayrollengine.Payroll.{
  can_transition, valid_transitions, lists, same_payroll_status, update_items, update_payrolls,
  transition_item, transition_payroll, reconcile_payroll_status, stamp_item, decrement_pending,
  reconcile_at_zero, settle_after, settle_payroll_item, settlement_stamp,
}

-- A row that was paid is paid still, with its amount.
pub record StaysPaid (a b : PayrollItem) : Type 0 where
  pub id : b.id ≡ a.id
  pub amount : b.amount ≡ a.amount
  pub status : a.status ≡ completed → b.status ≡ completed

-- Row by row.
abbrev pub StayPaid : List PayrollItem → List PayrollItem → Type 0
StayPaid [] later = Unit
StayPaid (a ∷ rows) [] = ⊥
StayPaid (a ∷ rows) (b ∷ later) = StaysPaid a b × StayPaid rows later

pub StayPaid-refl : (rows : List PayrollItem) → StayPaid rows rows
StayPaid-refl [] = tt
StayPaid-refl (a ∷ rows) =
    (record { id = refl; amount = refl; status = λ h. h }, StayPaid-refl rows)

pub record PaidFrom (base : List PayrollItem) (s : Store) : Type 0 where
  pub rows : StayPaid base s.items

-- A change that leaves what is paid as it is.
record SparesPaid (wanted : PayrollItem → Bool) (change : PayrollItem → PayrollItem) : Type 0 where
  id : (a : PayrollItem) → (change a).id ≡ a.id
  amount : (a : PayrollItem) → (change a).amount ≡ a.amount
  status :
      (a : PayrollItem) → wanted a ≡ true → a.status ≡ completed → (change a).status ≡ completed

module _ (wanted : PayrollItem → Bool) (change : PayrollItem → PayrollItem)
    (spares : SparesPaid wanted change) where
  StaysPaid-change :
      (a b : PayrollItem) → StaysPaid a b → StaysPaid a (if wanted b then change b else b)
  StaysPaid-change a b f = elim (Bool-cases (wanted b)) [
    | inl hit ↦ rw hit (record {
      id = spares.id b ∙ f.id;
      amount = spares.amount b ∙ f.amount;
      status = λ h. spares.status b hit (f.status h);
    })
    | inr miss ↦ rw miss f
  ]

  StayPaid-update :
      (base rows : List PayrollItem)
      → StayPaid base rows
      → StayPaid base (update_where wanted change rows)
  StayPaid-update [] rows h = tt
  StayPaid-update (a ∷ base) [] h = absurd h
  StayPaid-update (a ∷ base) (b ∷ rows) h =
      (StaysPaid-change a b h.0, StayPaid-update base rows h.1)

  update_rows :
      (base : List PayrollItem)
      → Keeps
          (PaidFrom base)
          (modify (λ s. record s { items = update_where wanted change s.items }))
  update_rows base = Keeps-modify _ (λ s h. record { rows = StayPaid-update base s.items h.rows })

IgnoresTick-PaidFrom : (base : List PayrollItem) → IgnoresTick (PaidFrom base)
IgnoresTick-PaidFrom base = record { at = λ s n h. record { rows = h.rows } }

-- No edge leaves `completed`.
transition-SparesPaid :
    (item now : ℕ) (current next : PayrollStatus)
    → can_transition current next ≡ true
    → SparesPaid
        (λ i. i.id == item && same_payroll_status i.status current)
        (λ i. record i { status = next; updated_at = now })
unfolding can_transition valid_transitions lists
transition-SparesPaid item now current next edge = record {
  id = λ a. refl;
  amount = λ a. refl;
  status = λ a pinned paid. ground arith;
}

stamp-SparesPaid :
    (item now : ℕ) (next : PayrollStatus) (actor : Option ℕ)
    → SparesPaid (λ i. i.id == item) (settlement_stamp now next actor)
stamp-SparesPaid item now next actor = record {
  id = λ a. refl;
  amount = λ a. refl;
  status = λ a _ h. h;
}

module _ (base : List PayrollItem) where
  tick : IgnoresTick (PaidFrom base)
  tick = IgnoresTick-PaidFrom base

  update_items-PaidFrom :
      (wanted : PayrollItem → Bool) (change : PayrollItem → PayrollItem)
      → SparesPaid wanted change
      → Keeps (PaidFrom base) (update_items wanted change)
  unfolding update_items
  update_items-PaidFrom wanted change spares =
      search (keeps_rules, tick, update_rows wanted change spares)

  other_rows :
      (wanted : Payroll → Bool) (change : Payroll → Payroll)
      → Keeps
          (PaidFrom base)
          (modify (λ s. record s { payrolls = update_where wanted change s.payrolls }))
  other_rows wanted change = Keeps-modify _ (λ s h. record { rows = h.rows })

  audit_row :
      (row : AuditEvent)
      → Keeps (PaidFrom base) (modify (λ s. record s { audits = s.audits ++ row ∷ [] }))
  audit_row row = Keeps-modify _ (λ s h. record { rows = h.rows })

  transition_item-PaidFrom :
      (item : ℕ) (current next : PayrollStatus)
      → Keeps (PaidFrom base) (transition_item item current next)
  unfolding transition_item
  transition_item-PaidFrom item current next =
      Keeps-guard _ _ _ λ legal. search (keeps_rules, pinned legal)
    where
      pinned :
          not (can_transition current next) ≡ false
          → (now : ℕ)
          → Keeps (PaidFrom base) (
              update_items
                (λ i. i.id == item && same_payroll_status i.status current)
                (λ i. record i { status = next; updated_at = now }))
      pinned legal now =
          update_items-PaidFrom _ _ (transition-SparesPaid item now current next (ground arith))

  stamp_item-PaidFrom :
      (item : ℕ) (next : PayrollStatus) (actor : Option ℕ)
      → Keeps (PaidFrom base) (stamp_item item next actor)
  unfolding stamp_item
  stamp_item-PaidFrom item next actor = search (keeps_rules, stamped) depth 9
    where
      stamped :
          (now : ℕ)
          → Keeps
              (PaidFrom base)
              (update_items (λ i. i.id == item) (settlement_stamp now next actor))
      stamped now = update_items-PaidFrom _ _ (stamp-SparesPaid item now next actor)

  append_audit-PaidFrom :
      (entity : ℕ) (action : AuditAction) → Keeps (PaidFrom base) (append_audit entity action)
  unfolding append_audit
  append_audit-PaidFrom entity action = search (keeps_rules, tick, audit_row)

  update_payrolls-PaidFrom :
      (wanted : Payroll → Bool) (change : Payroll → Payroll)
      → Keeps (PaidFrom base) (update_payrolls wanted change)
  unfolding update_payrolls
  update_payrolls-PaidFrom wanted change = search (keeps_rules, tick, other_rows)

  transition_payroll-PaidFrom :
      (payroll : ℕ) (current next : PayrollStatus)
      → Keeps (PaidFrom base) (transition_payroll payroll current next)
  unfolding transition_payroll
  transition_payroll-PaidFrom payroll current next = search (keeps_rules, update_payrolls-PaidFrom)

  reconcile-PaidFrom :
      (payroll : ℕ) (status : PayrollStatus)
      → Keeps (PaidFrom base) (reconcile_payroll_status payroll status)
  unfolding reconcile_payroll_status
  reconcile-PaidFrom payroll status =
      search (keeps_rules, tick, transition_payroll-PaidFrom, append_audit-PaidFrom) depth 9

  decrement-PaidFrom : (payroll : ℕ) → Keeps (PaidFrom base) (decrement_pending payroll)
  unfolding decrement_pending
  decrement-PaidFrom payroll = search (keeps_rules, tick, other_rows)

  reconcile_at_zero-PaidFrom :
      (post : Option Payroll) → Keeps (PaidFrom base) (reconcile_at_zero post)
  reconcile_at_zero-PaidFrom none = search (keeps_rules)
  reconcile_at_zero-PaidFrom (some p) = search (keeps_rules, reconcile-PaidFrom)

  settle_after-PaidFrom :
      (item : PayrollItem) (next : PayrollStatus) (actor : Option ℕ)
      → Keeps (PaidFrom base) (settle_after item next actor)
  unfolding settle_after
  settle_after-PaidFrom item next actor =
      search
        (
          keeps_rules, stamp_item-PaidFrom, decrement-PaidFrom, reconcile_at_zero-PaidFrom,
          append_audit-PaidFrom,
        )
        depth 9

  settle-PaidFrom :
      (item : PayrollItem) (next : PayrollStatus) (actor : Option ℕ)
      → Keeps (PaidFrom base) (settle_payroll_item item next actor)
  unfolding settle_payroll_item
  settle-PaidFrom item next actor =
      search (keeps_rules, transition_item-PaidFrom, settle_after-PaidFrom) depth 9

-- SettlePayrollItem removes no item, changes no amount, and leaves every item that was paid
-- paid, whatever it settles and whether it returns or fails.
pub settle_payroll_item-StayPaid :
    (item : PayrollItem) (next : PayrollStatus) (actor : Option ℕ) (s : Store)
    → StayPaid s.items (settle_payroll_item item next actor s).1.items
settle_payroll_item-StayPaid item next actor s =
    ((settle-PaidFrom s.items item next actor).at s (record { rows = StayPaid-refl s.items })).rows
