-- ===== src/Tests/Terms.antt =====
-- The properties of accruals, bills, debits, policies and amounts at concrete inputs.
use gopayrollengine.Base.{
  ℕ, ◌≡◌, refl, ◌+◌, ◌-◌, ◌%◌, ◌≤◌, Option, none, some, false, true, List, [], ◌∷◌, arith,
}
use gopayrollengine.Base.Int.{ℤ, pos, negsuc, ◌+ℤ◌, ◌≤ℤ◌}
use gopayrollengine.Base.Result.{ok, err}
use gopayrollengine.Accrual.{count_days, accrued_in}
use gopayrollengine.Accrual.Days.{count_days-returns, before_day}
use gopayrollengine.Accrual.Grows.{accrued_in-grows}
use gopayrollengine.Bill.{Date, Dated, Planned, plan_bills, no_plan, next_bill_due_date}
use gopayrollengine.Bill.Covered.{plan_bills-covers}
use gopayrollengine.Bill.Due.{IsNextDue, next_bill_due_date-IsNextDue}
use gopayrollengine.Debit.Start.{Prepared, new_collection, prepare_collection}
use gopayrollengine.Money.Currency.{ngn}
use gopayrollengine.Tests.{shop, advance_of}
use gopayrollengine.Money.Text.{marshal_json, unmarshal_json}
use gopayrollengine.Money.Text.Codec.{unmarshal_json-marshal}
use gopayrollengine.Policy.{PolicyUpdate, apply_update}
use gopayrollengine.Policy.Valid.{IsValid, apply_update-IsValid}
use gopayrollengine.Store.{EwaPolicy, Store, disbursed, d2c_debit_mandate}
use gopayrollengine.Text.{Text}

abbrev weekday : ℕ → ℕ
weekday d = (d + 4) % 7

count_days-returns_example :
    count_days weekday 31 0 30 0 ≡ some (0 + (before_day (30 + 4) - before_day (0 + 4)))
count_days-returns_example =
    count_days-returns weekday 4 (λ d. refl) 31 0 30 0 (omega arith) (omega arith)

accrued_in-grows_example :
    (q r : ℕ) × (accrued_in weekday (pos 300000) 0 30 10 ≡ ok (pos q))
    × (accrued_in weekday (pos 300000) 0 30 20 ≡ ok (pos r))
    × (q ≤ r)
    × (r ≤ 300000)
accrued_in-grows_example =
    accrued_in-grows weekday 4 (λ d. refl) 300000 0 30 10 20 (omega arith) (omega arith)
      (omega arith) (omega arith)

abbrev unquoted : Text → Option Text
unquoted s = none

abbrev integral : Text → Option ℤ
integral s = none

unmarshal_json-marshal_example :
    unmarshal_json unquoted integral (marshal_json (negsuc 149999)) ≡ ok (negsuc 149999)
unmarshal_json-marshal_example =
    unmarshal_json-marshal unquoted integral (negsuc 149999) (omega arith, omega arith)

abbrev policy : EwaPolicy
policy = record {
  enabled = true;
  max_accrual_pct = pos 30;
  absolute_cap_kobo = pos 20000000;
  min_draw_kobo = pos 100000;
  max_draws_per_period = 4;
  cooling_off_hours = 24;
  emergency_floor_kobo = pos 500000;
  require_funding_coverage = false;
}

-- Half of the accrued wages, and two draws.
abbrev update : PolicyUpdate
update = record {
  enabled = none;
  max_accrual_pct = some (pos 50);
  absolute_cap_kobo = none;
  min_draw_kobo = none;
  max_draws_per_period = some (pos 2);
  cooling_off_hours = none;
  emergency_floor_kobo = none;
  require_funding_coverage = none;
}

policy_IsValid : IsValid policy
policy_IsValid = record {
  pct = (omega arith, omega arith);
  cap = omega arith;
  min = omega arith;
  draws = omega arith;
  floor = omega arith;
}

updated :
    apply_update update policy
    ≡ ok (record policy { max_accrual_pct = pos 50; max_draws_per_period = 2 })
unfolding apply_update gopayrollengine.Policy.changed
updated = refl

apply_update-IsValid_example :
    IsValid (record policy { max_accrual_pct = pos 50; max_draws_per_period = 2 })
apply_update-IsValid_example =
    apply_update-IsValid update policy
      (record policy { max_accrual_pct = pos 50; max_draws_per_period = 2 }) policy_IsValid updated

abbrev bill_of : ℕ → ℕ → Dated
bill_of id amount = record {
  bill = record { id = id; employee_id = 7; amount_kobo = pos amount; due_day = id; active = true };
  due_date = record { month = 5; day = id };
}

abbrev payday : Date
payday = record { month = 5; day = 30 }

abbrev bills : List Dated
bills = bill_of 3 2000 ∷ bill_of 9 4000 ∷ bill_of 31 500 ∷ []

-- The first bill is covered, the second is too large, and the third is due after the payday.
abbrev plan : Planned
plan = elim (plan_bills payday bills (no_plan (pos 5000))) [ ok p ↦ p | err e ↦ no_plan (pos 0) ]

planned : plan_bills payday bills (no_plan (pos 5000)) ≡ ok plan
unfolding plan_bills gopayrollengine.Money.add gopayrollengine.Money.sub
    gopayrollengine.Base.Int64.add64 gopayrollengine.Base.Int64.sub64
    gopayrollengine.Base.Int64.wrap64 gopayrollengine.Base.Int.◌+ℤ◌ gopayrollengine.Base.Int.◌-ℤ◌
planned = refl

plan_bills-covers_example :
    (plan.total_coverable +ℤ plan.remaining ≡ pos 5000)
    × (pos 0 ≤ℤ plan.remaining)
    × (pos 0 ≤ℤ plan.total_coverable)
    × (plan.total_coverable ≤ℤ plan.total_due_before_payday)
plan_bills-covers_example =
    plan_bills-covers (pos 5000) payday bills plan (omega arith) (omega arith, omega arith)
      (
        (omega arith, (omega arith, omega arith)),
        (
          (omega arith, (omega arith, omega arith)),
          ((omega arith, (omega arith, omega arith)), tt),
        ),
      )
      planned

next_bill_due_date-IsNextDue_example :
    IsNextDue
      (λ m. 30)
      (record { month = 5; day = 12 })
      31
      (next_bill_due_date (λ m. 30) (record { month = 5; day = 12 }) 31)
next_bill_due_date-IsNextDue_example =
    next_bill_due_date-IsNextDue (λ m. 30) (record { month = 5; day = 12 }) 31

-- A worker with a linked account, a mandate and a consent, who owes an advance.
abbrev linked : Store
linked = record shop {
  links =
      record {
        id = 51;
        employee_id = 7;
        provider_account_ref = 9;
        is_linked = true;
        debit_mandate_ref = some 77;
      }
      ∷ [];
  consents =
      record {
        employee_id = 7;
        consent_type = d2c_debit_mandate;
        granted = true;
        consented_at = 10;
        expires_at = none;
      }
      ∷ [];
}

abbrev prepared : Prepared
prepared = record {
  collection = new_collection 5005 (advance_of 1 disbursed 5000) (pos 5000) 1 900 3;
  mandate = 77;
  amount = record { minor = pos 5000; currency = ngn };
}

abbrev after_start : Store
after_start = (prepare_collection 3 1 900 linked).1
