-- ===== src/Funding/Laws.antt =====
-- The statuses of advances through a termination (internal/services/
-- employee_termination_service.go).
use gopayrollengine.Base.{ℕ, Bool, List, [], ◌∷◌}
use gopayrollengine.Store.{Employee, EwaAdvance, Store, modify}
use gopayrollengine.Store.Keeps.{
  Keeps, keeps_rules, Keeps-modify, Keeps-bind, Keeps-ignore_stale, with_org_scope-Keeps,
}
use gopayrollengine.Advance.{update_where}
use gopayrollengine.Advance.Evolves.{
  EvolvedFrom, Evolves, Evolves-refl, advance_steps, cancel_advance-EvolvedFrom,
  write_off_advance-EvolvedFrom, IgnoresTick-EvolvedFrom,
}
use gopayrollengine.Funding.{deactivate, resolve_advance, resolve_advances, terminate_tx, terminate}

module _ (base : List EwaAdvance) where
  employee_rows :
      (wanted : Employee → Bool) (change : Employee → Employee)
      → Keeps
          (EvolvedFrom base)
          (modify (λ s. record s { employees = update_where wanted change s.employees }))
  employee_rows wanted change = Keeps-modify _ (λ s h. record { rows = h.rows })

  deactivate-EvolvedFrom : (emp : Employee) → Keeps (EvolvedFrom base) (deactivate emp)
  unfolding deactivate
  deactivate-EvolvedFrom emp = search (advance_steps, employee_rows) depth 10

  resolve_advance-EvolvedFrom : (adv : EwaAdvance) → Keeps (EvolvedFrom base) (resolve_advance adv)
  unfolding resolve_advance
  resolve_advance-EvolvedFrom adv =
      search (advance_steps, cancel_advance-EvolvedFrom base, write_off_advance-EvolvedFrom base)

  resolve_advances-EvolvedFrom :
      (advances : List EwaAdvance) → Keeps (EvolvedFrom base) (resolve_advances advances)
  unfolding resolve_advances
  resolve_advances-EvolvedFrom [] = search (keeps_rules)
  resolve_advances-EvolvedFrom (adv ∷ rest) =
      Keeps-bind _ _ (Keeps-ignore_stale _ (resolve_advance-EvolvedFrom adv))
        (λ _. resolve_advances-EvolvedFrom rest)

  terminate_tx-EvolvedFrom : (employee : ℕ) → Keeps (EvolvedFrom base) (terminate_tx employee)
  unfolding terminate_tx
  terminate_tx-EvolvedFrom employee =
      search (advance_steps, deactivate-EvolvedFrom, resolve_advances-EvolvedFrom) depth 10

-- Terminating a worker changes each advance's status along legal edges only, keeps its identity,
-- its worker and its amount, and removes no advance, whether it returns or fails.
pub terminate-Evolves :
    (employee : ℕ) (s : Store) → Evolves s.advances (terminate employee s).1.advances
unfolding terminate
terminate-Evolves employee s =
    ((with_org_scope-Keeps _ (IgnoresTick-EvolvedFrom s.advances)
        (terminate_tx-EvolvedFrom s.advances employee)).at
      s (record { rows = Evolves-refl s.advances })).rows
