-- ===== src/Bill/Covered.antt =====
-- The plan of a worker's bills (internal/services/ewa_bill_service.go).
use gopayrollengine.Base.{
  ◌≡◌, List, [], ◌∷◌, ◌++◌, Bool, true, false, arith, if◌then◌else◌, Bool-cases, inl, inr, subst,
}
use gopayrollengine.Base.Int.{pos, ◌+ℤ◌, ◌-ℤ◌, ◌≤ℤ◌, ◌<ℤ◌, leb_ℤ, int_laws}
use gopayrollengine.Base.Int64.{InRange}
use gopayrollengine.Base.Lists.{All}
use gopayrollengine.Base.Result.{Result, ok, ◌>>=◌, >>=-eq-ok, ok-injective}
use gopayrollengine.Money as Kobo
use gopayrollengine.Money.{Kobo}
use gopayrollengine.Money.Add.{add-ok, sub-ok}
use gopayrollengine.Bill.{
  Date, Dated, Planned, is_before, entry_of, cover, plan_bill, plan_bills, no_plan,
}

-- What the loop keeps, for an available amount.
record IsPlan (available : Kobo) (p : Planned) : Type 0 where
  split : p.total_coverable +ℤ p.remaining ≡ available
  remaining : pos 0 ≤ℤ p.remaining
  coverable : pos 0 ≤ℤ p.total_coverable
  due : p.total_coverable ≤ℤ p.total_due_before_payday
  fits : InRange p.remaining × InRange p.total_coverable × InRange p.total_due_before_payday

-- A bill's amount.
abbrev pub IsAmount : Dated → Type 0
IsAmount d = (pos 0 <ℤ d.bill.amount_kobo) × InRange d.bill.amount_kobo

covered_parts :
    (available remaining coverable due amount left covered total : Kobo)
    → coverable +ℤ remaining ≡ available
    → pos 0 ≤ℤ coverable
    → pos 0 <ℤ amount
    → amount ≤ℤ remaining
    → coverable ≤ℤ due
    → left ≡ remaining -ℤ amount
    → covered ≡ coverable +ℤ amount
    → total ≡ due +ℤ amount
    → (covered +ℤ left ≡ available) × (pos 0 ≤ℤ left) × (pos 0 ≤ℤ covered) × (covered ≤ℤ total)
covered_parts available remaining coverable due amount left covered total e c a le d el ec et =
    rw (el, ec, et) (rw (← e) (omega int_laws), omega int_laws, omega int_laws, omega int_laws)

cover-IsPlan :
    (available : Kobo) (d : Dated) (due : Kobo) (p : Planned) {q : Planned}
    → IsAmount d
    → IsPlan available p
    → leb_ℤ d.bill.amount_kobo p.remaining ≡ true
    → (due ≡ p.total_due_before_payday +ℤ d.bill.amount_kobo) × InRange due
    → cover d due p ≡ ok q
    → IsPlan available q
unfolding cover
cover-IsPlan available d due p a h le (ed, fd) e =
    let amount = d.bill.amount_kobo in
    let (left, e1, rest) = >>=-eq-ok (Kobo.sub p.remaining amount) _ e in
    let (covered, e2, rest2) = >>=-eq-ok (Kobo.add p.total_coverable amount) _ rest in
    let (el, fl) = sub-ok p.remaining amount h.fits.0 a.1 e1 in
    let (ec, fc) = add-ok p.total_coverable amount h.fits.1 a.1 e2 in
    let small : amount ≤ℤ p.remaining = ground arith in
    let (s, r, c, t) =
      covered_parts available p.remaining p.total_coverable p.total_due_before_payday amount left
        covered due h.split h.coverable a.0 small h.due el ec ed in
    subst (IsPlan available) (ok-injective rest2)
      (record { split = s; remaining = r; coverable = c; due = t; fits = (fl, fc, fd) })

IsPlan-keeps :
    (available : Kobo) (d : Dated) (due : Kobo) (p : Planned) (coverable : Bool)
    → IsAmount d
    → IsPlan available p
    → (due ≡ p.total_due_before_payday +ℤ d.bill.amount_kobo) × InRange due
    → IsPlan available (record p {
      entries = p.entries ++ entry_of d true coverable ∷ [];
      total_due_before_payday = due;
    })
IsPlan-keeps available d due p coverable a h (e, f) = record {
  split = h.split;
  remaining = h.remaining;
  coverable = h.coverable;
  due = rw e (omega (int_laws, h.due, a.0));
  fits = (h.fits.0, h.fits.1, f);
}

plan_bill-IsPlan :
    (available : Kobo) (next_payday : Date) (d : Dated) (p q : Planned)
    → IsAmount d
    → IsPlan available p
    → plan_bill next_payday d p ≡ ok q
    → IsPlan available q
unfolding plan_bill
plan_bill-IsPlan available next_payday d p q a h = go (is_before d.due_date next_payday)
  where
    due_step : Kobo → Result Planned
    due_step due =
        if leb_ℤ d.bill.amount_kobo p.remaining
        then cover d due p
        else ok (record p {
          entries = p.entries ++ entry_of d true false ∷ [];
          total_due_before_payday = due;
        })

    covers :
        (due : Kobo)
        → (due ≡ p.total_due_before_payday +ℤ d.bill.amount_kobo) × InRange due
        → due_step due ≡ ok q
        → IsPlan available q
    covers due f e = elim (Bool-cases (leb_ℤ d.bill.amount_kobo p.remaining)) [
      | inl le ↦ cover-IsPlan available d due p a h le f (rw le at e)
      | inr gt ↦
          subst (IsPlan available) (ok-injective (rw gt at e))
            (IsPlan-keeps available d due p false a h f)
    ]

    go :
        (b : Bool)
        → (if b
            then Kobo.add p.total_due_before_payday d.bill.amount_kobo >>= due_step
            else ok (record p { entries = p.entries ++ entry_of d false false ∷ [] }))
          ≡ ok q
        → IsPlan available q
    go true e =
        let (due, e1, rest) = >>=-eq-ok _ due_step e in
        covers due (add-ok p.total_due_before_payday d.bill.amount_kobo h.fits.2 a.1 e1) rest
    go false e = subst (IsPlan available) (ok-injective e) (record {
      split = h.split;
      remaining = h.remaining;
      coverable = h.coverable;
      due = h.due;
      fits = h.fits;
    })

plan_bills-IsPlan :
    (available : Kobo) (next_payday : Date) (bills : List Dated) (p q : Planned)
    → All IsAmount bills
    → IsPlan available p
    → plan_bills next_payday bills p ≡ ok q
    → IsPlan available q
unfolding plan_bills
plan_bills-IsPlan available next_payday [] p q a h e = subst (IsPlan available) (ok-injective e) h
plan_bills-IsPlan available next_payday (d ∷ rest) p q a h e =
    let (next, e1, later) = >>=-eq-ok (plan_bill next_payday d p) _ e in
    plan_bills-IsPlan available next_payday rest next q a.1
      (plan_bill-IsPlan available next_payday d p next a.0 h e1) later

-- Take an available amount that is an int64 value and not negative, and bills whose amounts are
-- positive int64 values. In the plan that GetBillTimingPlan's loop makes, the total that a draw
-- can cover and what is left of the available amount add up to the available amount, neither is
-- negative, and the coverable total is at most the total that is due before the payday.
pub plan_bills-covers :
    (available : Kobo) (next_payday : Date) (bills : List Dated) (plan : Planned)
    → pos 0 ≤ℤ available
    → InRange available
    → All IsAmount bills
    → plan_bills next_payday bills (no_plan available) ≡ ok plan
    → (plan.total_coverable +ℤ plan.remaining ≡ available)
      × (pos 0 ≤ℤ plan.remaining)
      × (pos 0 ≤ℤ plan.total_coverable)
      × (plan.total_coverable ≤ℤ plan.total_due_before_payday)
plan_bills-covers available next_payday bills plan nonneg fits amounts e =
    let h =
      plan_bills-IsPlan available next_payday bills (no_plan available) plan amounts start e in
    (h.split, h.remaining, h.coverable, h.due)
  where
    start : IsPlan available (no_plan available)
    start = record {
      split = omega int_laws;
      remaining = nonneg;
      coverable = omega arith;
      due = omega arith;
      fits = (fits, (omega arith, omega arith), (omega arith, omega arith));
    }
