-- ===== src/Payroll/Lost.antt =====
-- A settlement of an item that lost its race (internal/services/payroll_settlement.go).
use gopayrollengine.Base.{
  ℕ, ◌≡◌, refl, ◌+◌, ap, sym, ◌∙◌, Bool, true, false, ◌&&◌, List, [], ◌∷◌, Option, ◌==◌, arith,
  if◌then◌else◌,
}
use gopayrollengine.Base.Result.{ok}
use gopayrollengine.Store.{PayrollItem, PayrollStatus, Store, ◌>>=◌, race_lost, pure, bind-ok}
use gopayrollengine.Store.Yields.{Yields, Yields-pure, Yields-bind}
use gopayrollengine.Advance.{update_where, none_match}
use gopayrollengine.Payroll.{
  same_payroll_status, update_items, transition_item, settle_after, settle_payroll_item,
}

update_where-none {ℓ} :
    {A : Type ℓ} (wanted : A → Bool) (change : A → A) (rows : List A)
    → none_match wanted rows ≡ true
    → update_where wanted change rows ≡ rows
update_where-none wanted change [] h = refl
update_where-none wanted change (a ∷ rows) h = ground (arith, update_where-none wanted change rows)

settle_after-true :
    (item : PayrollItem) (next : PayrollStatus) (actor : Option ℕ)
    → Yields (λ b. b ≡ true) (settle_after item next actor)
unfolding settle_after
settle_after-true item next actor =
    Yields-bind _ _
      λ _. Yields-bind _ _ λ post. Yields-bind _ _ λ _. Yields-bind _ _ λ _. Yields-pure true refl

abbrev ticked : Store → Store
ticked s = record s { tick = s.tick + 1 }

transition-lost :
    (item : ℕ) (current next : PayrollStatus) (s t : Store)
    → race_lost (transition_item item current next) s ≡ (ok true, t)
    → t ≡ ticked s
unfolding race_lost transition_item update_items ◌>>=◌
transition-lost item current next s t h =
    let pinned : PayrollItem → Bool = λ i. i.id == item && same_payroll_status i.status current in
    let change : PayrollItem → PayrollItem = λ i. record i { status = next; updated_at = s.now } in
    ground (arith, update_where-none pinned change s.items)

pure-state : (s t : Store) {b : Bool} → pure false s ≡ (ok b, t) → s ≡ t
unfolding pure
pure-state s t h = ap (λ p. p.1) h

-- Where SettlePayrollItem reports that it was not applied, it has run one statement and changed
-- no table.
pub settle_payroll_item-lost :
    (item : PayrollItem) (next : PayrollStatus) (actor : Option ℕ) (s t : Store)
    → settle_payroll_item item next actor s ≡ (ok false, t)
    → t ≡ record s { tick = s.tick + 1 }
unfolding settle_payroll_item
settle_payroll_item-lost item next actor s t h =
    let (lost, s1, first, rest) = bind-ok _ _ s h in by_cases lost s1 first rest
  where
    not_applied : false ≡ true → t ≡ ticked s
    not_applied e = absurd cc

    by_cases :
        (lost : Bool) (s1 : Store)
        → race_lost (transition_item item.id item.status next) s ≡ (ok lost, s1)
        → (if lost then pure false else settle_after item next actor) s1 ≡ (ok false, t)
        → t ≡ ticked s
    by_cases true s1 first rest =
        sym (pure-state s1 t rest) ∙ transition-lost item.id item.status next s s1 first
    by_cases false s1 first rest =
        not_applied ((settle_after-true item next actor).at s1 t false rest)
