-- ===== src/Bill.antt =====
-- internal/services/ewa_bill_service.go: a worker's recurring bills, laid out against the payday.
-- A date is a month, counted from year 0, and a day of it; `days_in` is the length of a month
-- (package time). Bills due on one day are taken in the order of their rows.
pub mod Covered
pub mod Due
use gopayrollengine.Base.{
  ℕ, ◌+◌, Bool, true, false, not, ◌&&◌, ◌||◌, Option, none, some, List, [], ◌∷◌, ◌++◌, ltb, leb,
  ◌==◌, map, if◌then◌else◌,
}
use gopayrollengine.Base.Int.{ℤ, pos, pos_part, ltb_ℤ, leb_ℤ}
use gopayrollengine.Base.Lists.{find, select, is_some}
use gopayrollengine.Base.Result as Result
use gopayrollengine.Base.Result.{Result, ok, duplicate_key, record_not_found, invalid_bill}
use gopayrollengine.Money as Kobo
use gopayrollengine.Money.{Kobo}
use gopayrollengine.Store.{
  EwaBill, Store, M, pure, lift, gets, modify, fail_if, statement, draw_id, with_org_scope, ◌>>=◌,
  ◌>>◌,
}
use gopayrollengine.Advance.{update_where, none_match}
use gopayrollengine.Request.{Earned, Assessment, eligibility_tx}

pub record Date : Type 0 where
  pub month : ℕ
  pub day : ℕ

abbrev pub is_before : Date → Date → Bool
is_before a b = ltb a.month b.month || (a.month == b.month && ltb a.day b.day)

abbrev pub at_most_day : ℕ → ℕ → ℕ
at_most_day day max_day = if ltb max_day day then max_day else day

unfoldable pub next_bill_due_date : (ℕ → ℕ) → Date → ℕ → Date
next_bill_due_date days_in today due_day =
    let month = today.month in
    let candidate : Date = record { month = month; day = at_most_day due_day (days_in month) } in
    if is_before candidate today
    then record { month = month + 1; day = at_most_day due_day (days_in (month + 1)) }
    else candidate

-- The name is text, of which the code tests that it is there.
unfoldable pub add_bill : ℕ → Bool → Kobo → ℤ → M EwaBill
add_bill employee name amount due_day = do
  fail_if (not name) invalid_bill
  fail_if (not (Kobo.is_positive amount)) invalid_bill
  fail_if (ltb_ℤ due_day (pos 1) || ltb_ℤ (pos 31) due_day) invalid_bill
  with_org_scope (do
    id ← draw_id
    statement
    taken ← gets (λ s. find (λ b. b.id == id) s.bills)
    fail_if (is_some taken) duplicate_key
    let bill : EwaBill = record {
      id = id;
      employee_id = employee;
      amount_kobo = amount;
      due_day = pos_part due_day;
      active = true;
    }
    modify (λ s. record s { bills = s.bills ++ bill ∷ [] })
    pure bill)

abbrev pub is_active_of : ℕ → EwaBill → Bool
is_active_of employee b = b.employee_id == employee && b.active

-- ORDER BY due_day ASC.
unfoldable pub insert_by_due_day : EwaBill → List EwaBill → List EwaBill
insert_by_due_day b [] = b ∷ []
insert_by_due_day b (c ∷ rest) =
    let later = insert_by_due_day b rest in
    if leb b.due_day c.due_day then b ∷ c ∷ rest else c ∷ later

unfoldable pub by_due_day : List EwaBill → List EwaBill
unfolding insert_by_due_day
by_due_day [] = []
by_due_day (b ∷ rest) = insert_by_due_day b (by_due_day rest)

unfoldable pub list_bills : ℕ → M (List EwaBill)
unfolding by_due_day
list_bills employee =
    with_org_scope (statement >> gets (λ s. by_due_day (select (is_active_of employee) s.bills)))

unfoldable pub remove_bill : ℕ → ℕ → M (Unit {0})
remove_bill employee bill = with_org_scope (do
  statement
  untouched ← gets (λ s. none_match (λ b. b.id == bill && b.employee_id == employee) s.bills)
  modify (λ s. record s {
    bills =
        update_where (λ b. b.id == bill && b.employee_id == employee)
          (λ b. record b { active = false }) s.bills;
  })
  fail_if untouched record_not_found)

pub record Dated : Type 0 where
  pub bill : EwaBill
  pub due_date : Date

unfoldable pub insert_by_date : Dated → List Dated → List Dated
insert_by_date d [] = d ∷ []
insert_by_date d (e ∷ rest) =
    let later = insert_by_date d rest in
    if is_before e.due_date d.due_date then e ∷ later else d ∷ e ∷ rest

unfoldable pub by_due_date : List Dated → List Dated
unfolding insert_by_date
by_due_date [] = []
by_due_date (d ∷ rest) = insert_by_date d (by_due_date rest)

pub record BillTimingEntry : Type 0 where
  pub bill : EwaBill
  pub due_date : Date
  pub mismatched : Bool
  pub coverable : Bool

-- The plan under construction, and what is left of the available amount.
pub record Planned : Type 0 where
  pub entries : List BillTimingEntry
  pub total_due_before_payday : Kobo
  pub total_coverable : Kobo
  pub remaining : Kobo

abbrev pub entry_of : Dated → Bool → Bool → BillTimingEntry
entry_of d mismatched coverable = record {
  bill = d.bill;
  due_date = d.due_date;
  mismatched = mismatched;
  coverable = coverable;
}

-- A bill that what is left covers.
unfoldable pub cover : Dated → Kobo → Planned → Result Planned
cover d due plan = Result.◌>>=◌ (Kobo.sub plan.remaining d.bill.amount_kobo) λ remaining.
    Result.◌>>=◌ (Kobo.add plan.total_coverable d.bill.amount_kobo) λ coverable. ok (record {
      entries = plan.entries ++ entry_of d true true ∷ [];
      total_due_before_payday = due;
      total_coverable = coverable;
      remaining = remaining;
    })

-- One round of the loop.
unfoldable pub plan_bill : Date → Dated → Planned → Result Planned
unfolding cover
plan_bill next_payday d plan =
    if is_before d.due_date next_payday
    then Result.◌>>=◌ (Kobo.add plan.total_due_before_payday d.bill.amount_kobo) (λ due.
      if leb_ℤ d.bill.amount_kobo plan.remaining
      then cover d due plan
      else ok (record plan {
        entries = plan.entries ++ entry_of d true false ∷ [];
        total_due_before_payday = due;
      }))
    else ok (record plan { entries = plan.entries ++ entry_of d false false ∷ [] })

unfoldable pub plan_bills : Date → List Dated → Planned → Result Planned
unfolding plan_bill
plan_bills next_payday [] plan = ok plan
plan_bills next_payday (d ∷ rest) plan =
    Result.◌>>=◌ (plan_bill next_payday d plan) λ next. plan_bills next_payday rest next

abbrev pub no_plan : Kobo → Planned
no_plan available = record {
  entries = [];
  total_due_before_payday = pos 0;
  total_coverable = pos 0;
  remaining = available;
}

-- The payday is the last day of the month.
unfoldable pub get_bill_timing_plan :
    (ℕ → ℕ) → Date → M Earned → M Assessment → ℕ → ℕ → ℕ → M Planned
unfolding plan_bills by_due_date next_bill_due_date
get_bill_timing_plan days_in today earned assess employee period as_of = do
  (bills, available) ← with_org_scope (do
    statement
    bills ← gets (λ s. select (is_active_of employee) s.bills)
    el ← eligibility_tx earned assess employee period as_of
    pure (bills, el.available))
  let next_payday : Date = record { month = today.month; day = days_in today.month }
  let dated =
      map
        (λ (b : EwaBill). record {
          bill = b;
          due_date = next_bill_due_date days_in today b.due_day;
        })
        bills
  lift (plan_bills next_payday (by_due_date dated) (no_plan available))
