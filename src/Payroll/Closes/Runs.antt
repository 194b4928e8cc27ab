-- ===== src/Payroll/Closes/Runs.antt =====
-- What the statements of a settlement give where none fails (internal/services/payroll_settlement.go).
use gopayrollengine.Base.{
  ℕ, ◌≡◌, refl, ◌+◌, Bool, true, false, ◌&&◌, ◌||◌, [], ◌∷◌, ◌++◌, Option, some, ◌==◌, arith,
  if◌then◌else◌,
}
use gopayrollengine.Base.Lists.{find, is_some}
use gopayrollengine.Base.Result.{Result, ok}
use gopayrollengine.Store.{
  Payroll, PayrollStatus, processing, completed, AuditAction, reconciled, Store, M, ◌>>=◌,
  race_lost, pure, gets, statement, ◌>>◌,
}
use gopayrollengine.Advance.{append_audit, update_where, none_match}
use gopayrollengine.Payroll.{
  same_payroll_status, can_transition, update_items, update_payrolls, transition_item,
  transition_payroll, stamp_item, settlement_stamp, decrement_pending, counts_down, one_less,
  reconcile_payroll_status, outcome_of,
}
use gopayrollengine.Payroll.Closes.Rows.{outcome_in, with_status, is_processing}

abbrev pub NoFaults : Store → Type 0
NoFaults s = (n : ℕ) → s.faulty n ≡ false

module _ {ℓ κ} {A : Type ℓ} {B : Type κ} where
  pub run-bind :
      (m : M A) (f : A → M B) (s t : Store) {a : A} {r : Result B × Store}
      → m s ≡ (ok a, t)
      → f a t ≡ r
      → (m >>= f) s ≡ r
  unfolding ◌>>=◌
  run-bind m f s t e k = rw e k

pub transition_item-runs :
    (item : ℕ) (current next : PayrollStatus) (s : Store)
    → NoFaults s
    → can_transition current next ≡ true
    → none_match (λ i. i.id == item && same_payroll_status i.status current) s.items ≡ false
    → transition_item item current next s ≡ (
      ok tt,
      record s {
        items =
            update_where
              (λ i. i.id == item && same_payroll_status i.status current)
              (λ i. record i { status = next; updated_at = s.now })
              s.items;
        tick = s.tick + 1;
      },
    )
unfolding transition_item update_items ◌>>=◌
transition_item-runs item current next s ok_faults edge hit = rw (edge, ok_faults s.tick, hit) refl

pub transition_payroll-runs :
    (payroll : ℕ) (next : PayrollStatus) (s : Store)
    → NoFaults s
    → can_transition processing next ≡ true
    → none_match (is_processing payroll) s.payrolls ≡ false
    → transition_payroll payroll processing next s ≡ (
      ok tt,
      record s {
        payrolls = update_where (is_processing payroll) (with_status next) s.payrolls;
        tick = s.tick + 1;
      },
    )
unfolding transition_payroll update_payrolls ◌>>=◌
transition_payroll-runs payroll next s sound edge hit = rw (edge, sound s.tick, hit) refl

pub outcome-edge : (n : ℕ) → can_transition processing (outcome_of n) ≡ true
unfolding can_transition
outcome-edge n = ground arith

pub race_lost-runs :
    (m : M (Unit {0})) (s t : Store) → m s ≡ (ok tt, t) → race_lost m s ≡ (ok false, t)
unfolding race_lost
race_lost-runs m s t e = rw e refl

pub append_audit-runs :
    (entity : ℕ) (action : AuditAction) (s : Store)
    → NoFaults s
    → (t : Store) × (append_audit entity action s ≡ (ok tt, t))
      × (t.payrolls ≡ s.payrolls)
      × (t.items ≡ s.items)
      × NoFaults t
unfolding append_audit ◌>>=◌
append_audit-runs entity action s sound = (
  record s {
    audits = s.audits ++ record { entity_id = entity; action = action } ∷ [];
    tick = s.tick + 1;
  },
  rw (sound s.tick) refl,
  refl,
  refl,
  sound,
)

-- Either nothing is stamped, or one more statement runs.
pub stamp_item-runs :
    (item : ℕ) (next : PayrollStatus) (actor : Option ℕ) (s : Store)
    → NoFaults s
    → (t : Store) × (stamp_item item next actor s ≡ (ok tt, t))
      × (t.payrolls ≡ s.payrolls)
      × NoFaults t
unfolding stamp_item update_items ◌>>=◌
stamp_item-runs item next actor s sound = go (same_payroll_status next completed || is_some actor)
  where
    stamps : M (Unit {0})
    stamps = gets (λ s. s.now) >>= λ now.
        update_items (λ i. i.id == item) (settlement_stamp now next actor) >> pure tt

    go :
        (b : Bool)
        → (t : Store) × ((if b then stamps else pure tt) s ≡ (ok tt, t))
          × (t.payrolls ≡ s.payrolls)
          × NoFaults t
    go false = (s, refl, refl, sound)
    go true = (
      record s {
        items = update_where (λ i. i.id == item) (settlement_stamp s.now next actor) s.items;
        tick = s.tick + 1;
      },
      rw (sound s.tick) refl,
      refl,
      sound,
    )

pub decrement_pending-runs :
    (payroll : ℕ) (p : Payroll) (s : Store)
    → NoFaults s
    → find (counts_down payroll) s.payrolls ≡ some p
    → decrement_pending payroll s ≡ (
      ok (some p),
      record s {
        payrolls = update_where (counts_down payroll) one_less s.payrolls;
        tick = s.tick + 1;
      },
    )
unfolding decrement_pending ◌>>=◌
decrement_pending-runs payroll p s sound row = rw (sound s.tick, row) refl

gets-runs {ℓ} : {A : Type ℓ} (f : Store → A) (s : Store) → gets f s ≡ (ok (f s), s)
unfolding gets
gets-runs f s = refl

pub pure-runs {ℓ} : {A : Type ℓ} (a : A) (s : Store) → pure a s ≡ (ok a, s)
unfolding pure
pure-runs a s = refl

pub statement-runs :
    (s : Store) → NoFaults s → statement s ≡ (ok tt, record s { tick = s.tick + 1 })
unfolding statement
statement-runs s sound = rw (sound s.tick) refl

pub reconcile_payroll_status-runs :
    (payroll : ℕ) (s : Store)
    → NoFaults s
    → none_match (is_processing payroll) s.payrolls ≡ false
    → (t : Store) × (reconcile_payroll_status payroll processing s ≡ (ok tt, t))
      × (t.payrolls
          ≡ update_where
              (is_processing payroll)
              (with_status (outcome_in payroll s.items))
              s.payrolls)
      × (t.items ≡ s.items)
      × NoFaults t
unfolding reconcile_payroll_status
reconcile_payroll_status-runs payroll s sound hit =
    let s1 : Store = record s { tick = s.tick + 1 } in
    let next = outcome_in payroll s.items in
    let moved = transition_payroll-runs payroll next s1 sound (outcome-edge _) hit in
    let s2 : Store = record s1 {
      payrolls = update_where (is_processing payroll) (with_status next) s.payrolls;
      tick = s1.tick + 1;
    } in
    let (t, audited, rows, items, still) = append_audit-runs payroll reconciled s2 sound in
    (
      t,
      run-bind _ _ s s1 (statement-runs s sound) (
          run-bind _ _ s1 s1 (gets-runs _ s1)
            (run-bind _ _ s1 s2 (race_lost-runs _ s1 s2 moved) audited)),
      rows,
      items,
      still,
    )
