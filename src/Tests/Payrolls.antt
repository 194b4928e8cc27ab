-- ===== src/Tests/Payrolls.antt =====
-- The properties of payroll runs at the store of the tests.
use gopayrollengine.Base.{
  ◌≡◌, refl, ◌/◌, ◌+◌, ◌++◌, ◌==◌, ◌&&◌, sym, ◌∙◌, subst, none, some, false, true, [], ◌∷◌, arith,
}
use gopayrollengine.Base.Int.{ℤ, pos, eqb_ℤ}
use gopayrollengine.Base.Lists.{find}
use gopayrollengine.Base.Result.{ok, ok-injective}
use gopayrollengine.Store.{
  Store, Payroll, PayrollItem, pending, processing, completed, failed, ◌>>=◌,
  AdvanceStatus-discrete, KeyPrefix-discrete, OptionalId-discrete, AccountType-discrete,
  PayrollStatus-discrete,
}
use gopayrollengine.Store.Keeps.{Keeps}
use gopayrollengine.Advance.{
  update_advances, transition_advance, can_transition_advance, remaining_kobo, org_currency_tx,
  append_audit, cancel_advance, none_match,
}
use gopayrollengine.Ledger.{post_transaction, ensure_account}
use gopayrollengine.Settle.{settle_advances_for_payroll_item}
use gopayrollengine.Savings.{divert_savings_for_payroll_item}
use gopayrollengine.Money.Text.{from_naira_string}
use gopayrollengine.Payroll.{settle_payroll_item, can_transition, same_payroll_status}
use gopayrollengine.Payroll.Closes.{settle_payroll_item-closes}
use gopayrollengine.Payroll.Closes.Rows.{outcome_in}
use gopayrollengine.Payroll.Create.{Pay, net_item, create_payroll}
use gopayrollengine.Payroll.Life.{AllLive}
use gopayrollengine.Payroll.Life.Retried.{Retried, retry_failed_items-AllLive}
use gopayrollengine.Payroll.Life.Fates.{Sent}
use gopayrollengine.Payroll.Net.{IsSplit, net_item-IsSplit}
use gopayrollengine.Payroll.Once.Created.{HasOnePerMonth, create_payroll-HasOnePerMonth}
use gopayrollengine.Payroll.Reference.{item_reference, parse_item_reference, item_prefix}
use gopayrollengine.Payroll.Reference.Parsed.{parse_item_reference-item_reference}
use gopayrollengine.Payroll.Retry.{retry_failed_items}
use gopayrollengine.Text.{Text}
use gopayrollengine.Timesheet.{Calendar}
use gopayrollengine.Webhook.{MonnifyWebhookPayload, disbursement_successful, item_callback}
use gopayrollengine.Webhook.Refused.{IsRefused, item_callback-mismatch}
use gopayrollengine.Tests.{shop, item_of}

abbrev batch : Payroll
batch = record {
  id = 30;
  period = 202;
  total_amount = pos 8000;
  status = processing;
  pending_count = 1;
}

-- A batch that is still to be sent.
abbrev unsent : Store
unsent = record shop {
  payrolls = record batch { status = pending } ∷ [];
  items = item_of 31 completed ∷ item_of 32 pending ∷ [];
}

can_complete : can_transition processing completed ≡ true
unfolding can_transition PayrollStatus-discrete
can_complete = refl

has_waiting :
    none_match
      (λ (i : PayrollItem). i.id == 32 && same_payroll_status i.status processing)
      shop.items
    ≡ false
unfolding PayrollStatus-discrete
has_waiting = refl

settle_payroll_item-closes_example :
    (t : Store) × (settle_payroll_item (item_of 32 processing) completed none shop ≡ (ok true, t))
    × (find (λ q. q.id == 30) t.payrolls
        ≡ some (record batch { status = outcome_in 30 t.items; pending_count = 0 }))
settle_payroll_item-closes_example =
    settle_payroll_item-closes (item_of 32 processing) completed none batch shop (λ n. refl)
      can_complete has_waiting (record { row = refl; status = refl; last = refl })

abbrev calendar : Calendar
calendar = record {
  start_of = λ p. some p;
  end_of = λ p. some (p + 31);
  day_of = λ t. t;
  week_of = λ d. d / 7;
}

create_payroll-HasOnePerMonth_example :
    Keeps (HasOnePerMonth calendar (λ d. d)) (create_payroll calendar (λ d. d) (λ c. true) true 203)
create_payroll-HasOnePerMonth_example =
    create_payroll-HasOnePerMonth calendar (λ d. d) (λ c. true) true 203

retry_failed_items-AllLive_example :
    AllLive Retried shop.items (retry_failed_items true 30 shop).1.items
retry_failed_items-AllLive_example = retry_failed_items-AllLive true 30 shop

-- A wage of 8000, of which 5000 is owed, and a tenth of the rest is saved.
abbrev pay : Pay
pay = record { gross = pos 8000; withheld = pos 5000; diverted = pos 300; net = pos 2700 }

abbrev after_net : Store
after_net = (net_item 7 202 32 (pos 8000) shop).1

netted : net_item 7 202 32 (pos 8000) shop ≡ (ok pay, after_net)
unfolding net_item settle_advances_for_payroll_item divert_savings_for_payroll_item ◌>>=◌
    org_currency_tx AdvanceStatus-discrete ensure_account gopayrollengine.Ledger.normal_balance
    gopayrollengine.Money.Currency.is_valid AccountType-discrete remaining_kobo
    gopayrollengine.Money.sub gopayrollengine.Base.Int64.sub64 gopayrollengine.Base.Int64.wrap64
    gopayrollengine.Base.Int.◌-ℤ◌ post_transaction gopayrollengine.Ledger.validate_posting
    gopayrollengine.Money.Currency.Currency-discrete gopayrollengine.Money.Currency.add
    gopayrollengine.Base.Int64.add64 gopayrollengine.Base.Int.◌+ℤ◌ gopayrollengine.Ledger.post_new
    gopayrollengine.Money.add can_transition_advance append_audit cancel_advance transition_advance
    update_advances KeyPrefix-discrete OptionalId-discrete gopayrollengine.Base.ℕ_discrete
    gopayrollengine.Store.ignore_stale gopayrollengine.Money.percent gopayrollengine.Money.mul_int
    gopayrollengine.Base.Int64.mul64 gopayrollengine.Base.Int64.div64 gopayrollengine.Base.Int.quot
    gopayrollengine.Base.Int.rem gopayrollengine.Base.Int.◌*ℤ◌
    gopayrollengine.Payroll.Create.after_advances gopayrollengine.Payroll.Create.after_savings
    gopayrollengine.Store.race_lost
netted = refl

net_item-IsSplit_example : IsSplit (pos 8000) pay
net_item-IsSplit_example =
    net_item-IsSplit 7 202 32 (pos 8000) (omega arith, omega arith) (omega arith) shop after_net pay
      netted

-- 7f, the attempt of an item that was retried.
parse_item_reference-item_reference_example :
    parse_item_reference (item_reference (item_prefix ++ 55 ∷ 102 ∷ []) (pos 3))
    ≡ some (item_prefix ++ 55 ∷ 102 ∷ [], pos 3)
parse_item_reference-item_reference_example =
    parse_item_reference-item_reference 55 (102 ∷ []) (pos 3) (refl, (refl, tt))
      (omega arith, omega arith)

-- The callback reports 12 naira, where the item has 40.
abbrev callback : MonnifyWebhookPayload
callback = record {
  event_type = disbursement_successful;
  transaction_reference = [];
  amount = 49 ∷ 50 ∷ [];
}

twelve : from_naira_string callback.amount ≡ ok (pos 1200)
unfolding from_naira_string gopayrollengine.Text.parse_int gopayrollengine.Text.parse_digits
    gopayrollengine.Text.value_from gopayrollengine.Base.Int64.div64
    gopayrollengine.Base.Int64.wrap64 gopayrollengine.Base.Int.quot gopayrollengine.Base.Int64.sub64
    gopayrollengine.Base.Int.◌-ℤ◌ gopayrollengine.Base.Int64.add64 gopayrollengine.Base.Int.◌+ℤ◌
    gopayrollengine.Base.Int64.mul64 gopayrollengine.Base.Int.◌*ℤ◌
twelve = refl

not_forty : (k : ℤ) → from_naira_string callback.amount ≡ ok k → eqb_ℤ k (pos 4000) ≡ false
not_forty k e = subst (λ d. eqb_ℤ d (pos 4000) ≡ false) (ok-injective (sym twelve ∙ e)) refl

still_waiting :
    (same_payroll_status processing completed ≡ false)
    × (same_payroll_status processing failed ≡ false)
unfolding PayrollStatus-discrete
still_waiting = (refl, refl)

item_callback-mismatch_example :
    IsRefused shop (item_callback callback (pos 1) (item_of 32 processing) shop)
item_callback-mismatch_example =
    item_callback-mismatch callback (item_of 32 processing) shop still_waiting.0 still_waiting.1
      refl not_forty
