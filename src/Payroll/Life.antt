-- ===== src/Payroll/Life.antt =====
-- What becomes of the lines of a payroll (the items of internal/models/models.go): rules by which an
-- update of the rows keeps every line and a relation between what it was and what it is.
pub mod Fates
pub mod Sent
pub mod Retried
use gopayrollengine.Base.{
  ℕ, ◌≡◌, Bool, true, List, [], ◌∷◌, ◌++◌, if◌then◌else◌, Bool-cases, inl, inr,
}
use gopayrollengine.Store.{
  Payroll, PayrollItem, PayrollStatus, Store, AuditEvent, AuditAction, modify,
}
use gopayrollengine.Store.Keeps.{Keeps, IgnoresTick, Keeps-modify, keeps_rules}
use gopayrollengine.Advance.{append_audit, update_where}
use gopayrollengine.Payroll.{update_items, update_payrolls, transition_payroll}

-- Line by line, each line and what became of it are related; lines may be added at the end.
abbrev pub AllLive :
    (PayrollItem → PayrollItem → Type 0) → List PayrollItem → List PayrollItem → Type 0
AllLive R [] later = Unit
AllLive R (a ∷ rows) [] = ⊥
AllLive R (a ∷ rows) (b ∷ later) = R a b × AllLive R rows later

pub AllLive-refl :
    (R : PayrollItem → PayrollItem → Type 0)
    → ((a : PayrollItem) → R a a)
    → (rows : List PayrollItem) → AllLive R rows rows
AllLive-refl R same [] = tt
AllLive-refl R same (a ∷ rows) = (same a, AllLive-refl R same rows)

-- Two fates, one after the other.
pub AllLive-trans :
    (R Q T : PayrollItem → PayrollItem → Type 0)
    → ((a b c : PayrollItem) → R a b → Q b c → T a c)
    → (rows middle later : List PayrollItem) → AllLive R rows middle
    → AllLive Q middle later
    → AllLive T rows later
AllLive-trans R Q T both [] middle later h k = tt
AllLive-trans R Q T both (a ∷ rows) [] later h k = absurd h
AllLive-trans R Q T both (a ∷ rows) (b ∷ middle) [] h k = absurd k
AllLive-trans R Q T both (a ∷ rows) (b ∷ middle) (c ∷ later) h k =
    (both a b c h.0 k.0, AllLive-trans R Q T both rows middle later h.1 k.1)

pub record LivesFrom (R : PayrollItem → PayrollItem → Type 0) (base : List PayrollItem) (s : Store)
    : Type 0 where
  pub rows : AllLive R base s.items

-- A change that extends a fate.
pub record TakesStep (R : PayrollItem → PayrollItem → Type 0) (wanted : PayrollItem → Bool)
    (change : PayrollItem → PayrollItem) : Type 0 where
  pub step : (a b : PayrollItem) → R a b → wanted b ≡ true → R a (change b)

module _ (R : PayrollItem → PayrollItem → Type 0) (wanted : PayrollItem → Bool)
    (change : PayrollItem → PayrollItem) (takes : TakesStep R wanted change) where
  fate_after : (a b : PayrollItem) → R a b → R a (if wanted b then change b else b)
  fate_after a b f = elim (Bool-cases (wanted b)) [
    | inl hit ↦ rw hit (takes.step a b f hit)
    | inr miss ↦ rw miss f
  ]

  AllLive-update :
      (base rows : List PayrollItem)
      → AllLive R base rows
      → AllLive R base (update_where wanted change rows)
  AllLive-update [] rows h = tt
  AllLive-update (a ∷ base) [] h = absurd h
  AllLive-update (a ∷ base) (b ∷ rows) h = (fate_after a b h.0, AllLive-update base rows h.1)

  pub rows-LivesFrom :
      (base : List PayrollItem)
      → Keeps
          (LivesFrom R base)
          (modify (λ s. record s { items = update_where wanted change s.items }))
  rows-LivesFrom base = Keeps-modify _ (λ s h. record { rows = AllLive-update base s.items h.rows })

pub tick :
    (R : PayrollItem → PayrollItem → Type 0) (base : List PayrollItem)
    → IgnoresTick (LivesFrom R base)
tick R base = record { at = λ s n h. record { rows = h.rows } }

module _ (R : PayrollItem → PayrollItem → Type 0) (base : List PayrollItem) where
  pub update_items-LivesFrom :
      (wanted : PayrollItem → Bool) (change : PayrollItem → PayrollItem)
      → TakesStep R wanted change
      → Keeps (LivesFrom R base) (update_items wanted change)
  unfolding update_items
  update_items-LivesFrom wanted change takes =
      search (keeps_rules, tick, rows-LivesFrom R wanted change takes)

  other_rows :
      (wanted : Payroll → Bool) (change : Payroll → Payroll)
      → Keeps
          (LivesFrom R base)
          (modify (λ s. record s { payrolls = update_where wanted change s.payrolls }))
  other_rows wanted change = Keeps-modify _ (λ s h. record { rows = h.rows })

  audit_row :
      (row : AuditEvent)
      → Keeps (LivesFrom R base) (modify (λ s. record s { audits = s.audits ++ row ∷ [] }))
  audit_row row = Keeps-modify _ (λ s h. record { rows = h.rows })

  pub append_audit-LivesFrom :
      (entity : ℕ) (action : AuditAction) → Keeps (LivesFrom R base) (append_audit entity action)
  unfolding append_audit
  append_audit-LivesFrom entity action = search (keeps_rules, tick, audit_row)

  pub update_payrolls-LivesFrom :
      (wanted : Payroll → Bool) (change : Payroll → Payroll)
      → Keeps (LivesFrom R base) (update_payrolls wanted change)
  unfolding update_payrolls
  update_payrolls-LivesFrom wanted change = search (keeps_rules, tick, other_rows)

  pub transition_payroll-LivesFrom :
      (payroll : ℕ) (current next : PayrollStatus)
      → Keeps (LivesFrom R base) (transition_payroll payroll current next)
  unfolding transition_payroll
  transition_payroll-LivesFrom payroll current next =
      search (keeps_rules, update_payrolls-LivesFrom)
