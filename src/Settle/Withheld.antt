-- ===== src/Settle/Withheld.antt =====
-- What a settlement (SettleAdvancesForPayrollItem, internal/services/ewa_service.go) withholds.
use gopayrollengine.Base.{ℕ, ◌≡◌, true, List, [], ◌∷◌, ◌==◌, arith}
use gopayrollengine.Base.Int.{pos, ◌+ℤ◌, ◌-ℤ◌, ◌≤ℤ◌, int_laws}
use gopayrollengine.Base.Int64.{InRange}
use gopayrollengine.Base.Lists.{length}
use gopayrollengine.Base.Result.{ok}
use gopayrollengine.Money as Kobo
use gopayrollengine.Money.{Kobo}
use gopayrollengine.Money.Add.{add-ok, sub-ok}
use gopayrollengine.Money.Currency.{Currency}
use gopayrollengine.Store.{
  approved, settled_before_disbursement, ignore_stale, LedgerAccount, EwaAdvance, Store, M,
}
use gopayrollengine.Store.Yields.{Yields, Yields-pure, Yields-if, Yields-bind, Yields-bind-lift}
use gopayrollengine.Advance.{remaining_kobo, same_status, cancel_advance}
use gopayrollengine.Settle.{
  portion_of, recover, settle_each, settle_all, settle_advances_for_payroll_item,
}

-- Two amounts that are not negative and whose sum is an int64 value.
record Room (withheld remaining : Kobo) : Type 0 where
  withheld_nonneg : pos 0 ≤ℤ withheld
  remaining_nonneg : pos 0 ≤ℤ remaining
  fits : InRange (withheld +ℤ remaining)

-- A recovery moves its portion from what remains to what is withheld.
record Moved (withheld remaining next left : Kobo) : Type 0 where
  room : Room next left
  total : next +ℤ left ≡ withheld +ℤ remaining
  grows : withheld ≤ℤ next

portion_le : (owed remaining : Kobo) → portion_of owed remaining ≤ℤ remaining
portion_le owed remaining = ground arith

-- Amounts in such a room, and portions of them, are int64 values.
Room-InRange :
    (withheld remaining portion : Kobo)
    → Room withheld remaining
    → pos 0 ≤ℤ portion
    → portion ≤ℤ remaining
    → InRange withheld × InRange remaining × InRange portion
unfolding ◌+ℤ◌
Room-InRange withheld remaining portion room nonneg le = ground arith

step_moves :
    (withheld remaining portion : Kobo)
    → Room withheld remaining
    → Kobo.is_positive portion ≡ true
    → portion ≤ℤ remaining
    → (next left : Kobo) → Kobo.add withheld portion ≡ ok next
    → Kobo.sub remaining portion ≡ ok left
    → Moved withheld remaining next left
step_moves withheld remaining portion room covered le next left added taken =
    let (w, r, p) = Room-InRange withheld remaining portion room (ground arith) le in
    let (next_e, _) = add-ok withheld portion w p added in
    let (left_e, _) = sub-ok remaining portion r p taken in
    rw (next_e, left_e) (moved_portion withheld remaining portion room covered le)
  where
    moved_portion :
        (withheld remaining portion : Kobo)
        → Room withheld remaining
        → Kobo.is_positive portion ≡ true
        → portion ≤ℤ remaining
        → Moved withheld remaining (withheld +ℤ portion) (remaining -ℤ portion)
    moved_portion withheld remaining portion room covered le =
        let nonneg : pos 0 ≤ℤ portion = ground arith in
        let same : (withheld +ℤ portion) +ℤ (remaining -ℤ portion) ≡ withheld +ℤ remaining =
          omega int_laws in
        record {
          room = record {
            withheld_nonneg = omega int_laws;
            remaining_nonneg = omega int_laws;
            fits = rw same room.fits;
          };
          total = same;
          grows = omega int_laws;
        }

abbrev IsWithin : Kobo → Kobo → Kobo → Type 0
IsWithin withheld remaining w = (withheld ≤ℤ w) × (w ≤ℤ withheld +ℤ remaining)

settle_each-IsWithin :
    (currency : Currency) (receivable payable : LedgerAccount) (item : ℕ)
    (advances : List EwaAdvance) (withheld remaining : Kobo)
    → Room withheld remaining
    → Yields
        (IsWithin withheld remaining)
        (settle_each currency receivable payable item advances withheld remaining)
unfolding settle_each
settle_each-IsWithin currency receivable payable item [] withheld remaining room =
    Yields-pure withheld (omega int_laws)
settle_each-IsWithin currency receivable payable item (adv ∷ rest) withheld remaining room =
    let later = settle_each-IsWithin currency receivable payable item rest in
    let skip = later withheld remaining room in
    let portion = portion_of (remaining_kobo adv) remaining in
    Yields-if (same_status adv.status approved) _ _
      (λ _.
        Yields-bind (ignore_stale (cancel_advance adv approved settled_before_disbursement)) _
          (λ _. skip))
      (λ _.
        Yields-if (Kobo.is_positive (remaining_kobo adv)) _ _
          (λ due.
            Yields-if (Kobo.is_positive portion) _ _
              (λ covered. Yields-bind (recover currency receivable payable item adv portion) _ λ _.
                Yields-bind-lift (Kobo.add withheld portion) _ λ next added.
                  Yields-bind-lift (Kobo.sub remaining portion) _ λ left taken.
                    let le = portion_le (remaining_kobo adv) remaining in
                    let m =
                      step_moves withheld remaining portion room covered le next left added taken in
                    widen next left m (later next left m.room))
              (λ _. skip))
          (λ _. skip))
  where
    widen :
        (next left : Kobo)
        → Moved withheld remaining next left
        → {m : M Kobo} → Yields (IsWithin next left) m
        → Yields (IsWithin withheld remaining) m
    widen next left moved y = record {
      at = λ s t w e.
          let (low, high) = y.at s t w e in (omega (arith, moved.grows), rw (← moved.total) high);
    }

module _ (employee item : ℕ) (available : Kobo) (nonneg : pos 0 ≤ℤ available)
    (fits : InRange available) where
  zero_plus : pos 0 +ℤ available ≡ available
  zero_plus = omega int_laws

  room : Room (pos 0) available
  room = record {
    withheld_nonneg = omega arith;
    remaining_nonneg = nonneg;
    fits = rw zero_plus fits;
  }

  settle_all-IsWithin :
      (advances : List EwaAdvance)
      → Yields (IsWithin (pos 0) available) (settle_all employee item advances available)
  unfolding settle_all
  settle_all-IsWithin advances = Yields-bind _ _ λ c.
      Yields-bind _ _
        λ r. Yields-bind _ _ λ p. settle_each-IsWithin c r p item advances (pos 0) available room

  settle-IsWithin :
      (period : ℕ)
      → Yields
          (IsWithin (pos 0) available)
          (settle_advances_for_payroll_item employee period item available)
  unfolding settle_advances_for_payroll_item
  settle-IsWithin period = Yields-bind _ _ λ _. Yields-bind _ _ λ advances.
      Yields-if (length advances == 0) _ _ (λ _. Yields-pure (pos 0) (omega int_laws))
        (λ _. settle_all-IsWithin advances)

-- The amount that SettleAdvancesForPayrollItem returns is neither negative nor more than the pay
-- that is available, whatever the worker owes, if that pay is an int64 value and not negative.
pub withheld-le-available :
    (employee period item : ℕ) (available : Kobo)
    → pos 0 ≤ℤ available
    → InRange available
    → (s t : Store) (withheld : Kobo)
    → settle_advances_for_payroll_item employee period item available s ≡ (ok withheld, t)
    → (pos 0 ≤ℤ withheld) × (withheld ≤ℤ available)
withheld-le-available employee period item available nonneg fits s t withheld e =
    let (low, high) =
      (settle-IsWithin employee item available nonneg fits period).at s t withheld e in
    (low, rw (← zero_plus employee item available nonneg fits) high)
