-- ===== src/Payroll/Summary.antt =====
-- The counts of SummarizePayroll (internal/models/payroll_item.go).
use gopayrollengine.Base.{ℕ, ◌≡◌, ◌+◌, Bool, false, ◌||◌, List, [], ◌∷◌, arith, if◌then◌else◌}
use gopayrollengine.Base.Lists.{length, length-append}
use gopayrollengine.Store.{Payroll, PayrollItem, processing}
use gopayrollengine.Payroll.{
  Tally, count_item, count_items, no_items, is_stuck, summarize_payroll, same_payroll_status,
}

-- The items that a tally has counted.
counted : Tally → ℕ
counted t = length t.paid + length t.failed + t.processing + t.pending

count_item-one :
    (stuck_after now : ℕ) (it : PayrollItem) (t : Tally)
    → counted (count_item stuck_after now it t) ≡ counted t + 1
unfolding count_item counted
count_item-one stuck_after now it t =
    ground (arith, length-append t.paid (it.amount ∷ []), length-append t.failed (it.amount ∷ []))

count_items-all :
    (stuck_after now : ℕ) (items : List PayrollItem) (t : Tally)
    → counted (count_items stuck_after now items t) ≡ counted t + length items
unfolding count_items
count_items-all stuck_after now [] t = omega arith
count_items-all stuck_after now (it ∷ rest) t = omega (
  arith,
  count_items-all stuck_after now rest (count_item stuck_after now it t),
  count_item-one stuck_after now it t,
)

-- The four counts of a summary add up to the number of the batch's items.
summarize-counts :
    (stuck_after : ℕ) (p : Payroll) (items : List PayrollItem) (now : ℕ)
    → let s = summarize_payroll stuck_after p items now in
      s.paid + s.failed + s.processing + s.pending ≡ length items
unfolding summarize_payroll counted
summarize-counts stuck_after p items now =
    omega (arith, count_items-all stuck_after now items no_items)

-- Some item is with the bank for longer than `stuck_after`.
abbrev pub any_stuck : ℕ → ℕ → List PayrollItem → Bool
any_stuck stuck_after now [] = false
any_stuck stuck_after now (it ∷ rest) =
    (if same_payroll_status it.status processing then is_stuck stuck_after now it else false)
    || any_stuck stuck_after now rest

count_items-stuck :
    (stuck_after now : ℕ) (items : List PayrollItem) (t : Tally)
    → (count_items stuck_after now items t).stuck ≡ (t.stuck || any_stuck stuck_after now items)
unfolding count_items count_item
count_items-stuck stuck_after now [] t = ground arith
count_items-stuck stuck_after now (it ∷ rest) t =
    ground (arith, count_items-stuck stuck_after now rest (count_item stuck_after now it t))

-- A summary says `stuck` exactly when some processing item is older than `stuck_after`.
summarize-stuck :
    (stuck_after : ℕ) (p : Payroll) (items : List PayrollItem) (now : ℕ)
    → (summarize_payroll stuck_after p items now).stuck ≡ any_stuck stuck_after now items
unfolding summarize_payroll
summarize-stuck stuck_after p items now = count_items-stuck stuck_after now items no_items
