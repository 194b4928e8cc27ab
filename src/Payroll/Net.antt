-- ===== src/Payroll/Net.antt =====
-- The net pay of an item (CreatePayroll of internal/services/payroll_service.go).
use gopayrollengine.Base.{ℕ, ◌≡◌, refl, ap, false, arith}
use gopayrollengine.Base.Int.{pos, ◌+ℤ◌, ◌≤ℤ◌, ◌<ℤ◌, pos_part, neg_part, int_laws}
use gopayrollengine.Base.Int64.{InRange}
use gopayrollengine.Base.Result.{ok}
use gopayrollengine.Money as Kobo
use gopayrollengine.Money.{Kobo}
use gopayrollengine.Money.Add.{sub-ok}
use gopayrollengine.Store.{Store}
use gopayrollengine.Store.Yields.{
  Yields, Yields-pure, Yields-if, Yields-bind, Yields-bind-lift, Yields-chain, Yields-lift,
}
use gopayrollengine.Settle.{settle_advances_for_payroll_item}
use gopayrollengine.Settle.Withheld.{withheld-le-available}
use gopayrollengine.Savings.{divert_savings_for_payroll_item}
use gopayrollengine.Savings.Diverted.{diverted-lt-net_pay}
use gopayrollengine.Payroll.Create.{Pay, after_advances, after_savings, net_item}

-- A part of an amount, and what is left of it.
record Parts (whole part left : Kobo) : Type 0 where
  split : left +ℤ part ≡ whole
  nonneg : pos 0 ≤ℤ left
  fits : InRange left

difference_Parts :
    (whole part left : Kobo)
    → InRange whole
    → pos 0 ≤ℤ part
    → part ≤ℤ whole
    → Kobo.sub whole part ≡ ok left
    → Parts whole part left
difference_Parts whole part left fits low high e =
    let inside : InRange part = ground arith in
    let (left_e, left_in) = sub-ok whole part fits inside e in
    record {
      split = rw left_e (omega int_laws);
      nonneg = rw left_e (omega int_laws);
      fits = left_in;
    }

-- Nothing is taken.
whole_Parts :
    (whole part : Kobo)
    → InRange whole
    → pos 0 ≤ℤ whole
    → pos 0 ≤ℤ part
    → Kobo.is_positive part ≡ false
    → Parts whole part whole
whole_Parts whole part fits nonneg low none = record {
  split = omega (int_laws, none_left);
  nonneg = nonneg;
  fits = fits;
}
  where
    none_left : part ≤ℤ pos 0
    none_left = ground arith

module _ (whole part : Kobo) (fits : InRange whole) (nonneg : pos 0 ≤ℤ whole) (low : pos 0 ≤ℤ part)
    (high : part ≤ℤ whole) where
  after_advances-Parts : Yields (Parts whole part) (after_advances whole part)
  unfolding after_advances
  after_advances-Parts =
      Yields-if (Kobo.is_positive part) _ _
        (λ _. Yields-bind-lift (Kobo.sub whole part) _ λ left e.
          Yields-bind _ _ λ _. Yields-pure left (difference_Parts whole part left fits low high e))
        (λ none. Yields-pure whole (whole_Parts whole part fits nonneg low none))

  after_savings-Parts : Yields (Parts whole part) (after_savings whole part)
  unfolding after_savings
  after_savings-Parts =
      Yields-if (Kobo.is_positive part) _ _
        (λ _. Yields-lift _ λ left e. difference_Parts whole part left fits low high e)
        (λ none. Yields-pure whole (whole_Parts whole part fits nonneg low none))

divert-none :
    (employee item : ℕ) (net_pay : Kobo)
    → Yields
        (λ amount. Kobo.is_positive net_pay ≡ false → amount ≡ pos 0)
        (divert_savings_for_payroll_item employee item net_pay)
unfolding divert_savings_for_payroll_item
divert-none employee item net_pay =
    Yields-if (Kobo.is_positive net_pay) _ _ (λ due. record { at = λ s t a e zero. absurd cc })
      (λ _. Yields-pure (pos 0) (λ _. refl))

-- Savings of at most the net pay, which is not negative.
record IsSaved (net_pay amount : Kobo) : Type 0 where
  low : pos 0 ≤ℤ amount
  high : amount ≤ℤ net_pay
  less : pos 0 <ℤ net_pay → amount <ℤ net_pay

divert-IsSaved :
    (employee item : ℕ) (net_pay : Kobo)
    → pos 0 ≤ℤ net_pay
    → Yields (IsSaved net_pay) (divert_savings_for_payroll_item employee item net_pay)
divert-IsSaved employee item net_pay nonneg = record {
  at = λ s t a e.
      let (low, less) = diverted-lt-net_pay employee item net_pay s t a e in
      let zero = (divert-none employee item net_pay).at s t a e in
      record { low = low; high = at_most a low less zero; less = less };
}
  where
    at_most :
        (a : Kobo)
        → pos 0 ≤ℤ a
        → (pos 0 <ℤ net_pay → a <ℤ net_pay)
        → (Kobo.is_positive net_pay ≡ false → a ≡ pos 0)
        → a ≤ℤ net_pay
    at_most a low less zero = ground arith

-- What an item's pay is made of.
pub record IsSplit (gross : Kobo) (pay : Pay) : Type 0 where
  pub total : pay.net +ℤ pay.diverted +ℤ pay.withheld ≡ gross
  pub withheld : pos 0 ≤ℤ pay.withheld
  pub diverted : pos 0 ≤ℤ pay.diverted
  pub net : pos 0 ≤ℤ pay.net
  -- Savings never take all that the advances leave.
  pub left : pay.withheld <ℤ gross → pos 0 <ℤ pay.net

Parts-IsSplit :
    (gross withheld left diverted net : Kobo)
    → pos 0 ≤ℤ withheld
    → Parts gross withheld left
    → IsSaved left diverted
    → Parts left diverted net
    → IsSplit gross (record { gross = gross; withheld = withheld; diverted = diverted; net = net })
Parts-IsSplit gross withheld left diverted net low a saved b = record {
  total = rw b.split a.split;
  withheld = low;
  diverted = saved.low;
  net = b.nonneg;
  left = λ h.
      let some_left : pos 0 <ℤ left = omega (int_laws, ap pos_part a.split, ap neg_part a.split) in
      omega (int_laws, ap pos_part b.split, ap neg_part b.split, saved.less some_left);
}

withheld-Yields :
    (employee period item : ℕ) (gross : Kobo)
    → InRange gross
    → pos 0 ≤ℤ gross
    → Yields
        (λ w. (pos 0 ≤ℤ w) × (w ≤ℤ gross))
        (settle_advances_for_payroll_item employee period item gross)
withheld-Yields employee period item gross fits nonneg = record {
  at = λ s t w. withheld-le-available employee period item gross nonneg fits s t w;
}

net_item-Yields :
    (employee period item : ℕ) (gross : Kobo)
    → InRange gross
    → pos 0 ≤ℤ gross
    → Yields (IsSplit gross) (net_item employee period item gross)
unfolding net_item
net_item-Yields employee period item gross fits nonneg =
    Yields-chain _ _ _ (withheld-Yields employee period item gross fits nonneg) λ w (low, high).
      Yields-chain _ _ _ (after_advances-Parts gross w fits nonneg low high) λ left a.
        Yields-chain _ _ _ (divert-IsSaved employee item left a.nonneg) λ d saved.
          Yields-chain _ _ _ (after_savings-Parts left d a.fits a.nonneg saved.low saved.high)
            λ net b. Yields-bind _ _ λ now.
              Yields-bind _ _ λ _. Yields-pure _ (Parts-IsSplit gross w left d net low a saved b)

-- Take a gross pay that is an int64 value and not negative. Where CreatePayroll nets an item's pay
-- without an error, the net pay, what is diverted to savings and what is withheld for advances add
-- up to the gross pay exactly, none of the three is negative, and the net pay is positive unless
-- the advances take all of the gross pay.
pub net_item-IsSplit :
    (employee period item : ℕ) (gross : Kobo)
    → InRange gross
    → pos 0 ≤ℤ gross
    → (s t : Store) (pay : Pay) → net_item employee period item gross s ≡ (ok pay, t)
    → IsSplit gross pay
net_item-IsSplit employee period item gross fits nonneg =
    (net_item-Yields employee period item gross fits nonneg).at
