-- ===== src/Bill/Due.antt =====
-- The next due date of a bill (internal/services/ewa_bill_service.go).
use gopayrollengine.Base.{
  ℕ, ◌≡◌, refl, ◌+◌, ◌≤◌, Bool, true, false, arith, dec_lt, sym, ◌∙◌, subst, if◌then◌else◌,
}
use gopayrollengine.Bill.{Date, is_before, at_most_day, next_bill_due_date}

-- A bill's date in a month: its day, or the last day of a shorter month.
abbrev pub date_in : (ℕ → ℕ) → ℕ → ℕ → Date
date_in days_in due_day month = record { month = month; day = at_most_day due_day (days_in month) }

same_month :
    (days_in : ℕ → ℕ) (today : Date) (due_day month : ℕ)
    → month ≡ today.month
    → is_before (date_in days_in due_day month) today ≡ false
    → is_before (date_in days_in due_day today.month) today ≡ true
    → ⊥
same_month days_in today due_day month m later e =
    let e' : is_before (date_in days_in due_day today.month) today ≡ false =
      subst (λ k. is_before (date_in days_in due_day k) today ≡ false) m later in
    let clash : true ≡ false = sym e ∙ e' in absurd cc

-- What the next due date of a bill is.
pub record IsNextDue (days_in : ℕ → ℕ) (today : Date) (due_day : ℕ) (due : Date) : Type 0 where
  pub in_month : due ≡ date_in days_in due_day due.month
  pub not_past : is_before due today ≡ false
  pub soonest :
      (month : ℕ) → is_before (date_in days_in due_day month) today ≡ false → due.month ≤ month

-- The due date that nextBillDueDate gives is the bill's date in some month, with a day past the
-- month's end moved to its last day; it is not before today, and in no earlier month is the bill's
-- date today or later.
pub next_bill_due_date-IsNextDue :
    (days_in : ℕ → ℕ) (today : Date) (due_day : ℕ)
    → IsNextDue days_in today due_day (next_bill_due_date days_in today due_day)
unfolding next_bill_due_date
next_bill_due_date-IsNextDue days_in today due_day =
    go (is_before (date_in days_in due_day today.month) today) refl
  where
    later_month :
        (month : ℕ)
        → is_before (date_in days_in due_day month) today ≡ false
        → is_before (date_in days_in due_day today.month) today ≡ true
        → today.month + 1 ≤ month
    later_month month later e = elim (dec_lt today.month month) [
      | yes p ↦ omega arith
      | no p ↦ elim (dec_lt month today.month) [
        | yes q ↦ ground arith
        | no q ↦ absurd (same_month days_in today due_day month (omega arith) later e)
      ]
    ]

    go :
        (b : Bool)
        → is_before (date_in days_in due_day today.month) today ≡ b
        → IsNextDue days_in today due_day (
            if b
            then date_in days_in due_day (today.month + 1)
            else date_in days_in due_day today.month)
    go true e = record {
      in_month = refl;
      not_past = ground arith;
      soonest = λ month later. later_month month later e;
    }
    go false e = record { in_month = refl; not_past = e; soonest = λ month later. ground arith }
