-- ===== src/Tests.antt =====
-- A small store, and the properties at concrete inputs of it.
mod Money
mod Payrolls
mod Terms
mod Services
use gopayrollengine.Base.{ℕ, ◌+◌, Bool, false, true, Option, none, some, List, [], ◌∷◌}
use gopayrollengine.Base.Int.{ℤ, pos}
use gopayrollengine.Money.Currency.{ngn}
use gopayrollengine.Store.{
  EwaAdvance, AdvanceStatus, approved, disbursed, healthy, EwaSavingsPreference, fixed_percent,
  TimeEntry, entry_pending, entry_approved, regular, Payroll, PayrollItem, PayrollStatus, pending,
  processing, completed, failed, Employee, Store,
}

abbrev pub advance_of : ℕ → AdvanceStatus → ℕ → EwaAdvance
advance_of id status amount = record {
  id = id;
  employee_id = 7;
  period = 202;
  amount_kobo = pos amount;
  fee_kobo = pos 0;
  status = status;
  recovered_kobo = pos 0;
  accrued_at_request = pos 9000;
  available_at_request = pos 6000;
  dependency_score = 0;
  dependency_tier = healthy;
  decline_reason = none;
  idempotency_key = none;
  settled_payroll_item_id = none;
  provider_name = none;
  provider_reference = none;
  requested_at = id;
  disbursed_at = none;
  settled_at = none;
}

abbrev pub item_of : ℕ → PayrollStatus → PayrollItem
item_of id status = record {
  id = id;
  payroll_id = 30;
  employee_id = 7;
  amount = pos 4000;
  status = status;
  attempt = 1;
  gross_kobo = none;
  advances_deducted_kobo = none;
  savings_kobo = none;
  sent_at = some 10;
  settled_at = none;
  updated_at = 10;
  resolved_by = none;
}

abbrev pub entry_of : ℕ → TimeEntry
entry_of id = record {
  id = id;
  employee_id = 7;
  work_date = 100;
  minutes_worked = pos 480;
  shift_type = regular;
  status = entry_approved;
  paid_payroll_item_id = none;
  approved_by = some 1;
  approved_at = some 5;
}

-- One worker with a disbursed and an approved advance, a batch of two items, and two entries.
abbrev pub shop : Store
shop = record {
  org_currency = some ngn;
  accounts = [];
  transactions = [];
  entries = [];
  advances = advance_of 1 disbursed 5000 ∷ advance_of 2 approved 700 ∷ [];
  payrolls =
      record {
        id = 30;
        period = 202;
        total_amount = pos 8000;
        status = processing;
        pending_count = 1;
      }
      ∷ [];
  items = item_of 31 completed ∷ item_of 32 processing ∷ [];
  audits = [];
  savings =
      record {
        employee_id = 7;
        enabled = true;
        mode = fixed_percent;
        percent = pos 10;
        round_up_to_kobo = pos 0;
      }
      ∷ [];
  preferences = [];
  policy = none;
  time_entries = entry_of 41 ∷ entry_of 42 ∷ [];
  payroll_policy = none;
  employees =
      record {
        id = 7;
        is_active = true;
        is_hourly = true;
        salary = pos 0;
        hourly_rate_kobo = pos 6000;
      }
      ∷ [];
  grants = [];
  collections = [];
  links = [];
  consents = [];
  bills = [];
  now = 1000;
  uuid = λ n. n + 5000;
  faulty = λ n. false;
  tick = 0;
}
