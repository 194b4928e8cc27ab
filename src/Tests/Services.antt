-- ===== src/Tests/Services.antt =====
-- The properties of the ledger and of the services at the store of the tests.
use gopayrollengine.Base.{◌≡◌, refl, ◌+◌, ◌/◌, ◌↔◌, none, some, [], ◌∷◌, arith, map, false}
use gopayrollengine.Base.Int.{ℤ, pos, ◌+ℤ◌, ◌≤ℤ◌, ◌<ℤ◌}
use gopayrollengine.Base.Lists.{All, select}
use gopayrollengine.Base.Result.{Result, ok, err}
use gopayrollengine.Store.{
  cancelled, Store, TimeEntry, LedgerTransaction, funding_deposit, debit, processing, completed,
  ◌>>=◌, AdvanceStatus-discrete, KeyPrefix-discrete, OptionalId-discrete, AccountType-discrete,
  PayrollStatus-discrete, TimeEntryStatus-discrete,
}
use gopayrollengine.Store.Keeps.{Keeps}
use gopayrollengine.Advance.{
  update_advances, transition_advance, can_transition_advance, remaining_kobo, org_currency_tx,
  append_audit, cancel_advance,
}
use gopayrollengine.Advance.Evolves.{Evolves, here, terminal-Reaches}
use gopayrollengine.Ledger.{post_transaction, ensure_account}
use gopayrollengine.Settle.{settle_advances_for_payroll_item}
use gopayrollengine.Settle.Withheld.{withheld-le-available}
use gopayrollengine.Settle.Laws.{settle-Evolves}
use gopayrollengine.Savings.{divert_savings_for_payroll_item}
use gopayrollengine.Savings.Diverted.{diverted-lt-net_pay}
use gopayrollengine.Payroll.{settle_payroll_item}
use gopayrollengine.Payroll.Settled.{settle_payroll_item-StayPaid, StayPaid}
use gopayrollengine.Payroll.Lost.{settle_payroll_item-lost}
use gopayrollengine.Timesheet.{
  Calendar, among, is_unpaid, mark_time_entries_paid, default_payroll_policy,
}
use gopayrollengine.Timesheet.Hourly.{Run, no_run, pay_entries}
use gopayrollengine.Timesheet.Paid.{marked-never-unpaid, pay_entries-all}
use gopayrollengine.Funding.{terminate}
use gopayrollengine.Funding.Laws.{terminate-Evolves}
use gopayrollengine.Ledger.{PostingRequest, validate_posting}
use gopayrollengine.Ledger.Validate.{Int64Amounts, IsBalanced, side_total}
use gopayrollengine.Ledger.Books.{IsBooked, post_transaction-IsBooked}
use gopayrollengine.Ledger.Complete.{validate_posting_iff}
use gopayrollengine.Ledger.Replay.{post_transaction-replay}
use gopayrollengine.Advance.{movement}
use gopayrollengine.Money.Currency.{ngn}
use gopayrollengine.Base.Int64.{InRange}
use gopayrollengine.Tests.{shop, item_of, entry_of}

abbrev after_settlement : Store
after_settlement = (settle_advances_for_payroll_item 7 202 31 (pos 3000) shop).1

settled_partly :
    settle_advances_for_payroll_item 7 202 31 (pos 3000) shop ≡ (ok (pos 3000), after_settlement)
unfolding settle_advances_for_payroll_item ◌>>=◌ org_currency_tx AdvanceStatus-discrete
    ensure_account gopayrollengine.Ledger.normal_balance gopayrollengine.Money.Currency.is_valid
    AccountType-discrete remaining_kobo gopayrollengine.Money.sub gopayrollengine.Base.Int64.sub64
    gopayrollengine.Base.Int64.wrap64 gopayrollengine.Base.Int.◌-ℤ◌ post_transaction
    gopayrollengine.Ledger.validate_posting gopayrollengine.Money.Currency.Currency-discrete
    gopayrollengine.Money.Currency.add gopayrollengine.Base.Int64.add64
    gopayrollengine.Base.Int.◌+ℤ◌ gopayrollengine.Ledger.post_new gopayrollengine.Money.add
    can_transition_advance append_audit cancel_advance transition_advance update_advances
    KeyPrefix-discrete OptionalId-discrete gopayrollengine.Base.ℕ_discrete
    gopayrollengine.Store.ignore_stale
settled_partly = refl

withheld-le-available_example : (pos 0 ≤ℤ pos 3000) × (pos 3000 ≤ℤ pos 3000)
withheld-le-available_example =
    withheld-le-available 7 202 31 (pos 3000) (omega arith) (omega arith, omega arith) shop
      after_settlement (pos 3000) settled_partly

settle-Evolves_example : Evolves shop.advances after_settlement.advances
settle-Evolves_example = settle-Evolves 7 202 31 (pos 3000) shop

abbrev after_diversion : Store
after_diversion = (divert_savings_for_payroll_item 7 31 (pos 4000) shop).1

diverted_tenth :
    divert_savings_for_payroll_item 7 31 (pos 4000) shop ≡ (ok (pos 400), after_diversion)
unfolding divert_savings_for_payroll_item ◌>>=◌ org_currency_tx ensure_account
    gopayrollengine.Ledger.normal_balance gopayrollengine.Money.Currency.is_valid
    AccountType-discrete post_transaction gopayrollengine.Ledger.validate_posting
    gopayrollengine.Money.Currency.Currency-discrete gopayrollengine.Money.Currency.add
    gopayrollengine.Base.Int64.add64 gopayrollengine.Base.Int64.wrap64 gopayrollengine.Base.Int.◌+ℤ◌
    gopayrollengine.Ledger.post_new KeyPrefix-discrete OptionalId-discrete
    gopayrollengine.Base.ℕ_discrete gopayrollengine.Money.percent gopayrollengine.Money.mul_int
    gopayrollengine.Base.Int64.mul64 gopayrollengine.Base.Int64.div64 gopayrollengine.Base.Int.quot
    gopayrollengine.Base.Int.rem gopayrollengine.Base.Int.◌*ℤ◌ gopayrollengine.Base.Int64.sub64
    gopayrollengine.Base.Int.◌-ℤ◌
diverted_tenth = refl

diverted-lt-net_pay_example : (pos 0 ≤ℤ pos 400) × (pos 0 <ℤ pos 4000 → pos 400 <ℤ pos 4000)
diverted-lt-net_pay_example =
    diverted-lt-net_pay 7 31 (pos 4000) shop after_diversion (pos 400) diverted_tenth

settle_payroll_item-StayPaid_example :
    StayPaid shop.items (settle_payroll_item (item_of 32 processing) completed none shop).1.items
settle_payroll_item-StayPaid_example =
    settle_payroll_item-StayPaid (item_of 32 processing) completed none shop

lost_race :
    settle_payroll_item (item_of 31 processing) completed none shop
    ≡ (ok false, record shop { tick = 1 })
unfolding settle_payroll_item ◌>>=◌ PayrollStatus-discrete gopayrollengine.Payroll.can_transition
    gopayrollengine.Store.race_lost
lost_race = refl

settle_payroll_item-lost_example : record shop { tick = 1 } ≡ record shop { tick = shop.tick + 1 }
settle_payroll_item-lost_example =
    settle_payroll_item-lost (item_of 31 processing) completed none shop (record shop { tick = 1 })
      lost_race

abbrev after_marking : Store
after_marking = (mark_time_entries_paid (41 ∷ []) 31 shop).1

one_marked : mark_time_entries_paid (41 ∷ []) 31 shop ≡ (ok tt, after_marking)
unfolding mark_time_entries_paid ◌>>=◌
one_marked = refl

marked-never-unpaid_example :
    All (λ e. among (41 ∷ []) e.id ≡ false) (select (is_unpaid 7 200) after_marking.time_entries)
marked-never-unpaid_example = marked-never-unpaid (41 ∷ []) 31 shop after_marking one_marked 7 200

abbrev calendar : Calendar
calendar = record {
  start_of = λ p. some p;
  end_of = λ p. some (p + 31);
  day_of = λ t. t;
  week_of = λ d. d / 7;
}

abbrev after_pay : Result Run × Store
after_pay =
    pay_entries calendar default_payroll_policy 7 (pos 60000) (entry_of 41 ∷ entry_of 42 ∷ [])
      no_run shop

abbrev paid_run : Run
paid_run = elim after_pay.0 [ ok r ↦ r | err e ↦ no_run ]

two_paid : after_pay ≡ (ok paid_run, after_pay.1)
unfolding pay_entries ◌>>=◌ gopayrollengine.Timesheet.paid_minutes_in_iso_week
    gopayrollengine.Money.percent gopayrollengine.Money.mul_int gopayrollengine.Base.Int64.mul64
    gopayrollengine.Base.Int64.div64 gopayrollengine.Base.Int.quot gopayrollengine.Base.Int.rem
    gopayrollengine.Base.Int.◌*ℤ◌ gopayrollengine.Base.Int64.sub64 gopayrollengine.Base.Int.◌-ℤ◌
    gopayrollengine.Base.Int64.add64 gopayrollengine.Base.Int64.wrap64 gopayrollengine.Base.Int.◌+ℤ◌
    TimeEntryStatus-discrete gopayrollengine.Timesheet.multiplier_bps
two_paid = refl

pay_entries-all_example :
    paid_run.entry_ids ≡ map (λ (e : TimeEntry). e.id) (entry_of 41 ∷ entry_of 42 ∷ [])
pay_entries-all_example =
    pay_entries-all calendar default_payroll_policy 7 (pos 60000) (entry_of 41 ∷ entry_of 42 ∷ [])
      shop after_pay.1 paid_run two_paid

terminate-Evolves_example : Evolves shop.advances (terminate 7 shop).1.advances
terminate-Evolves_example = terminate-Evolves 7 shop

-- A line that moves 5000 from one account to another.
abbrev deposit : PostingRequest
deposit =
    movement (record { prefix = funding_deposit; subject = 9; item = none }) 9 61 62
      (record { minor = pos 5000; currency = ngn })

deposit_fits : Int64Amounts deposit.entries
deposit_fits = ((omega arith, omega arith), ((omega arith, omega arith), tt))

post_transaction-IsBooked_example : Keeps IsBooked (post_transaction deposit)
post_transaction-IsBooked_example = post_transaction-IsBooked deposit deposit_fits

validate_posting_iff_example : (validate_posting deposit ≡ ok tt) ↔ IsBalanced deposit
validate_posting_iff_example = validate_posting_iff deposit deposit_fits (fits)
  where
    fits : InRange (side_total debit deposit.entries)
    fits = unfold ◌+ℤ◌ in (omega arith, omega arith)

abbrev after_deposit : Result LedgerTransaction × Store
after_deposit = post_transaction deposit shop

abbrev deposited : LedgerTransaction
deposited = record {
  id = 5001;
  kind = funding_deposit;
  reference = 9;
  idempotency_key = record { prefix = funding_deposit; subject = 9; item = none };
}

deposit_posted : after_deposit ≡ (ok deposited, after_deposit.1)
unfolding ◌>>=◌ post_transaction gopayrollengine.Ledger.validate_posting
    gopayrollengine.Money.Currency.is_valid gopayrollengine.Money.Currency.Currency-discrete
    gopayrollengine.Money.Currency.add gopayrollengine.Base.Int64.add64
    gopayrollengine.Base.Int64.wrap64 gopayrollengine.Base.Int.◌+ℤ◌ gopayrollengine.Ledger.post_new
    KeyPrefix-discrete OptionalId-discrete gopayrollengine.Base.ℕ_discrete
deposit_posted = refl

database_up : after_deposit.1.faulty after_deposit.1.tick ≡ false
unfolding ◌>>=◌ post_transaction gopayrollengine.Ledger.validate_posting
    gopayrollengine.Money.Currency.is_valid gopayrollengine.Money.Currency.Currency-discrete
    gopayrollengine.Money.Currency.add gopayrollengine.Base.Int64.add64
    gopayrollengine.Base.Int64.wrap64 gopayrollengine.Base.Int.◌+ℤ◌ gopayrollengine.Ledger.post_new
    KeyPrefix-discrete OptionalId-discrete gopayrollengine.Base.ℕ_discrete
database_up = refl

deposit_valid : validate_posting deposit ≡ ok tt
unfolding gopayrollengine.Ledger.validate_posting gopayrollengine.Money.Currency.is_valid
    gopayrollengine.Money.Currency.Currency-discrete gopayrollengine.Money.Currency.add
    gopayrollengine.Base.Int64.add64 gopayrollengine.Base.Int64.wrap64 gopayrollengine.Base.Int.◌+ℤ◌
deposit_valid = refl

post_transaction-replay_example :
    post_transaction deposit after_deposit.1
    ≡ (ok deposited, record (after_deposit.1) { tick = after_deposit.1.tick + 1 })
post_transaction-replay_example =
    post_transaction-replay deposit (record { prefix = funding_deposit; subject = 9; item = none })
      shop refl deposit_posted deposit refl deposit_valid database_up

terminal-Reaches_example : cancelled ≡ cancelled
terminal-Reaches_example = terminal-Reaches cancelled cancelled here refl
