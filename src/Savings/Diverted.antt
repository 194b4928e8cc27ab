-- ===== src/Savings/Diverted.antt =====
-- What the savings election (internal/services/ewa_savings_service.go) takes from a net pay.
use gopayrollengine.Base.{
  ℕ, ◌≡◌, true, ◌+◌, ◌-◌, ◌==◌, ◌^◌, ◌%◌, ◌<◌, arith, Bool-cases, inl, inr, if◌then◌else◌,
}
use gopayrollengine.Base.Int.{pos, ◌-ℤ◌, ◌≤ℤ◌, ◌<ℤ◌, leb_ℤ, rem}
use gopayrollengine.Base.Int64.{sub64, wrap64}
use gopayrollengine.Base.Result.{ok}
use gopayrollengine.Money as Kobo
use gopayrollengine.Money.{Kobo}
use gopayrollengine.Store.{EwaSavingsPreference, Store}
use gopayrollengine.Store.Yields.{Yields, Yields-pure, Yields-if, Yields-bind, Yields-bind-lift}
use gopayrollengine.Savings.{
  round_up_delta, amount_to_divert, post_diversion, divert, divert_savings_for_payroll_item,
}

-- For a net pay that is not negative and a unit that is a positive int64 value, the delta is less than the unit, and
-- with it the net pay is a multiple of the unit.
round_up_delta-multiple :
    (net_pay unit : ℕ)
    → 0 < unit
    → unit < 2 ^ 63
    → (delta : ℕ) × (round_up_delta (pos net_pay) (pos unit) ≡ pos delta)
      × (delta < unit)
      × ((net_pay + delta) % unit ≡ 0)
unfolding round_up_delta sub64 wrap64 ◌-ℤ◌ rem
round_up_delta-multiple net_pay unit hu hr = elim (Bool-cases (net_pay % unit == 0)) [
  | inl exact ↦ (0, ground arith, hu, ground arith)
  | inr short ↦ (unit - net_pay % unit, ground (arith, small), ground arith, up)
]
  where
    small : net_pay % unit < unit
    small = grind arith

    up : (net_pay + (unit - net_pay % unit)) % unit ≡ 0
    up = grind arith

-- Nothing, or a positive part of the net pay that leaves some of it.
abbrev Leaves : Kobo → Kobo → Type 0
Leaves net_pay amount = (pos 0 ≤ℤ amount) × (pos 0 <ℤ net_pay → amount <ℤ net_pay)

post_diversion-amount :
    (Q : Kobo → Type 0) (employee item : ℕ) (amount : Kobo)
    → Q amount
    → Yields Q (post_diversion employee item amount)
unfolding post_diversion
post_diversion-amount Q employee item amount q =
    Yields-bind _ _
      λ c. Yields-bind _ _ λ p. Yields-bind _ _ λ a. Yields-bind _ _ λ t. Yields-pure amount q

divert-Leaves :
    (employee item : ℕ) (net_pay : Kobo) (pref : EwaSavingsPreference)
    → Yields (Leaves net_pay) (divert employee item net_pay pref)
unfolding divert
divert-Leaves employee item net_pay pref =
    Yields-bind-lift (amount_to_divert pref net_pay) _ λ amount e.
      Yields-if (if Kobo.is_positive amount then leb_ℤ net_pay amount else true) _ _
        (λ _. Yields-pure (pos 0) (omega arith, λ h. h))
        (λ kept. post_diversion-amount _ employee item amount (ground arith))

divert_savings-Leaves :
    (employee item : ℕ) (net_pay : Kobo)
    → Yields (Leaves net_pay) (divert_savings_for_payroll_item employee item net_pay)
unfolding divert_savings_for_payroll_item
divert_savings-Leaves employee item net_pay =
    Yields-if (Kobo.is_positive net_pay) _ _
      (λ due. Yields-bind _ _ λ pref.
        Yields-if pref.enabled _ _ (λ _. divert-Leaves employee item net_pay pref)
          (λ _. Yields-pure (pos 0) (omega arith, λ h. h)))
      (λ _. Yields-pure (pos 0) (omega arith, λ h. h))

-- The amount that DivertSavingsForPayrollItem returns is not negative, and is less than the net
-- pay whenever the net pay is positive.
pub diverted-lt-net_pay :
    (employee item : ℕ) (net_pay : Kobo) (s t : Store) (amount : Kobo)
    → divert_savings_for_payroll_item employee item net_pay s ≡ (ok amount, t)
    → (pos 0 ≤ℤ amount) × (pos 0 <ℤ net_pay → amount <ℤ net_pay)
diverted-lt-net_pay employee item net_pay s t amount e =
    (divert_savings-Leaves employee item net_pay).at s t amount e
