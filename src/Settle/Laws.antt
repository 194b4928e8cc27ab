-- ===== src/Settle/Laws.antt =====
-- The statuses of advances through a settlement (SettleAdvancesForPayrollItem,
-- internal/services/ewa_service.go).
use gopayrollengine.Base.{ℕ, refl, ◌&&◌, List, [], ◌∷◌, some, ◌==◌}
use gopayrollengine.Base.Int.{eqb_ℤ}
use gopayrollengine.Money.{Kobo}
use gopayrollengine.Money.Currency.{Currency}
use gopayrollengine.Store.{LedgerAccount, EwaAdvance, Store}
use gopayrollengine.Store.Keeps.{Keeps, keeps_rules}
use gopayrollengine.Advance.{update_advances}
use gopayrollengine.Advance.Evolves.{
  EvolvedFrom, Evolves, Evolves-refl, advance_steps, cancel_advance-EvolvedFrom,
  update_advances-EvolvedFrom, other_columns-IsLegal,
}
use gopayrollengine.Settle.{
  close_advance, recover, settle_each, settle_all, settle_advances_for_payroll_item,
}

module _ (base : List EwaAdvance) where
  -- Updates of the columns that a recovery writes beside the status.
  recovered_column :
      (adv : EwaAdvance) (total : Kobo)
      → Keeps (EvolvedFrom base) (
          update_advances
            (λ a. a.id == adv.id && eqb_ℤ a.recovered_kobo adv.recovered_kobo)
            (λ a. record a { recovered_kobo = total }))
  recovered_column adv total =
      update_advances-EvolvedFrom base _ _
        (other_columns-IsLegal _ _ (λ a. (refl, refl, refl, refl)))

  item_column :
      (adv : EwaAdvance) (item : ℕ)
      → Keeps (EvolvedFrom base) (
          update_advances
            (λ a. a.id == adv.id)
            (λ a. record a { settled_payroll_item_id = some item }))
  item_column adv item =
      update_advances-EvolvedFrom base _ _
        (other_columns-IsLegal _ _ (λ a. (refl, refl, refl, refl)))

  close_advance-EvolvedFrom :
      (adv : EwaAdvance) (item : ℕ) → Keeps (EvolvedFrom base) (close_advance adv item)
  unfolding close_advance
  close_advance-EvolvedFrom adv item = search (advance_steps, item_column) depth 9

  recover-EvolvedFrom :
      (currency : Currency) (receivable payable : LedgerAccount) (item : ℕ) (adv : EwaAdvance)
      (portion : Kobo)
      → Keeps (EvolvedFrom base) (recover currency receivable payable item adv portion)
  unfolding recover
  recover-EvolvedFrom currency receivable payable item adv portion =
      search (advance_steps, recovered_column, close_advance-EvolvedFrom) depth 12

  settle_each-EvolvedFrom :
      (currency : Currency) (receivable payable : LedgerAccount) (item : ℕ)
      (advances : List EwaAdvance) (withheld remaining : Kobo)
      → Keeps
          (EvolvedFrom base)
          (settle_each currency receivable payable item advances withheld remaining)
  unfolding settle_each
  settle_each-EvolvedFrom currency receivable payable item [] withheld remaining =
      search (keeps_rules)
  settle_each-EvolvedFrom currency receivable payable item (adv ∷ rest) withheld remaining =
      let later = settle_each-EvolvedFrom currency receivable payable item rest in
      search (keeps_rules, recover-EvolvedFrom, cancel_advance-EvolvedFrom base, later) depth 12

  settle_all-EvolvedFrom :
      (employee item : ℕ) (advances : List EwaAdvance) (available : Kobo)
      → Keeps (EvolvedFrom base) (settle_all employee item advances available)
  unfolding settle_all
  settle_all-EvolvedFrom employee item advances available =
      search (advance_steps, settle_each-EvolvedFrom) depth 10

  settle-EvolvedFrom :
      (employee period item : ℕ) (available : Kobo)
      → Keeps (EvolvedFrom base) (settle_advances_for_payroll_item employee period item available)
  unfolding settle_advances_for_payroll_item
  settle-EvolvedFrom employee period item available =
      search (advance_steps, settle_all-EvolvedFrom) depth 10

-- A settlement changes each advance's status along legal edges only, keeps its identity, its
-- worker and its amount, and removes no advance, whether it returns or fails.
pub settle-Evolves :
    (employee period item : ℕ) (available : Kobo) (s : Store)
    → Evolves s.advances
        (settle_advances_for_payroll_item employee period item available s).1.advances
settle-Evolves employee period item available s =
    ((settle-EvolvedFrom s.advances employee period item available).at s
      (record { rows = Evolves-refl s.advances })).rows
