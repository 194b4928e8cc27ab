-- ===== src/Payroll/Closes/Rows.antt =====
-- The row of a batch whose last payment is settled (internal/services/payroll_settlement.go).
use gopayrollengine.Base.{
  ℕ, ◌≡◌, refl, ap, sym, ◌∙◌, Bool, true, false, ◌&&◌, List, [], ◌∷◌, some, ◌==◌, ==_iff, ◌⊎◌, inl,
  inr, arith, if◌then◌else◌,
}
use gopayrollengine.Base.Lists.{length, select, find}
use gopayrollengine.Store.{Payroll, PayrollItem, PayrollStatus, processing, failed}
use gopayrollengine.Advance.{update_where, none_match}
use gopayrollengine.Payroll.{same_payroll_status, counts_down, one_less, outcome_of}

abbrev pub is_failed_line : ℕ → PayrollItem → Bool
is_failed_line payroll i = i.payroll_id == payroll && same_payroll_status i.status failed

abbrev pub outcome_in : ℕ → List PayrollItem → PayrollStatus
outcome_in payroll items = outcome_of (length (select (is_failed_line payroll) items))

abbrev pub with_status : PayrollStatus → Payroll → Payroll
with_status status p = record p { status = status }

abbrev pub is_processing : ℕ → Payroll → Bool
is_processing payroll p = p.id == payroll && same_payroll_status p.status processing

-- The row of a batch that is processing, with payments to come.
pub record Closing (payroll : ℕ) (p : Payroll) (rows : List Payroll) : Type 0 where
  pub row : find (λ q. q.id == payroll) rows ≡ some p
  pub status : p.status ≡ processing
  pub last : p.pending_count ≡ 1

module _ (payroll : ℕ) (p : Payroll) where
  pub row-cases :
      (q : Payroll) (rows : List Payroll)
      → Closing payroll p (q ∷ rows)
      → ((q ≡ p) × (p.id ≡ payroll)) ⊎ (Closing payroll p rows × ((q.id == payroll) ≡ false))
  row-cases q rows h = go (q.id == payroll) refl h.row
    where
      go :
          (b : Bool)
          → (q.id == payroll) ≡ b
          → (if b then some q else find (λ r. r.id == payroll) rows) ≡ some p
          → ((q ≡ p) × (p.id ≡ payroll)) ⊎ (Closing payroll p rows × ((q.id == payroll) ≡ false))
      go true e row =
          let same : q ≡ p = cc in inl (same, ap (λ r. r.id) (sym same) ∙ (==_iff q.id payroll).0 e)
      go false e row = inr (record { row = row; status = h.status; last = h.last }, e)

  pub find-counts :
      (rows : List Payroll)
      → Closing payroll p rows
      → (find (counts_down payroll) rows ≡ some p) × (p.id ≡ payroll)
  find-counts [] h = absurd (let e = h.row in cc)
  find-counts (q ∷ rows) h = elim (row-cases q rows h) [
    | inl (e, i) ↦ rw e (ground (arith, h.last), i)
    | inr (rest, e) ↦ let (f, i) = find-counts rows rest in rw e (f, i)
  ]

  pub still-processing :
      (rows : List Payroll)
      → Closing payroll p rows
      → none_match (is_processing payroll) (update_where (counts_down payroll) one_less rows)
        ≡ false
  still-processing [] h = absurd (let e = h.row in cc)
  still-processing (q ∷ rows) h = elim (row-cases q rows h) [
    | inl (e, i) ↦ rw e (ground (arith, h.last, h.status))
    | inr (rest, e) ↦ ground (arith, e, still-processing rows rest)
  ]

  pub closed-row :
      (next : PayrollStatus) (rows : List Payroll)
      → Closing payroll p rows
      → find
          (λ q. q.id == payroll)
          (update_where
            (is_processing payroll)
            (with_status next)
            (update_where (counts_down payroll) one_less rows))
        ≡ some (record p { status = next; pending_count = 0 })
  closed-row next [] h = absurd (let e = h.row in cc)
  closed-row next (q ∷ rows) h = elim (row-cases q rows h) [
    | inl (e, i) ↦ rw e (ground (arith, h.last, h.status))
    | inr (rest, e) ↦ ground (arith, e, closed-row next rows rest)
  ]
