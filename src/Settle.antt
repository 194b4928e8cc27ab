-- ===== src/Settle.antt =====
-- internal/services/ewa_service.go: SettleAdvancesForPayrollItem, which nets a worker's advances
-- out of one payroll item, and the queries on the advances that are still owed.
pub mod Withheld
pub mod Laws
use gopayrollengine.Base.{
  ℕ, ◌+◌, Bool, true, false, ◌&&◌, ◌||◌, Option, none, some, List, [], ◌∷◌, ltb, leb, ◌==◌,
  if◌then◌else◌,
}
use gopayrollengine.Base.Int.{ℤ, pos, ltb_ℤ, leb_ℤ, eqb_ℤ}
use gopayrollengine.Base.Lists.{length, select}
use gopayrollengine.Base.Result.{stale_status}
use gopayrollengine.Money as Kobo
use gopayrollengine.Money.{Kobo}
use gopayrollengine.Money.Currency.{Currency, kobo_in}
use gopayrollengine.Store.{
  wage_payable, advance_receivable, cash_settlement, LedgerAccount, LedgerTransaction, EwaAdvance,
  approved, disbursed, settled, settled_before_disbursement, ewa_settlement, ewa_advance,
  partially_settled, Key, Store, M, pure, lift, gets, fail_if, statement, ignore_stale, race_lost,
  ◌>>=◌, ◌>>◌,
}
use gopayrollengine.Ledger.{post_transaction, ensure_account, PostingRequest}
use gopayrollengine.Advance.{
  same_status, update_advances, transition_advance, is_outstanding, remaining_kobo, org_currency_tx,
  append_audit, movement, advance_key, cancel_advance,
}

-- ORDER BY requested_at ASC.
abbrev pub insert_by_request : EwaAdvance → List EwaAdvance → List EwaAdvance
insert_by_request a [] = a ∷ []
insert_by_request a (b ∷ rest) =
    let later = insert_by_request a rest in
    if leb a.requested_at b.requested_at then a ∷ b ∷ rest else b ∷ later

unfoldable pub by_request : List EwaAdvance → List EwaAdvance
by_request [] = []
by_request (a ∷ rest) = insert_by_request a (by_request rest)

abbrev pub settlement_key : EwaAdvance → ℕ → Key
settlement_key adv item = record { prefix = ewa_settlement; subject = adv.id; item = some item }

abbrev pub settlement :
    LedgerAccount → LedgerAccount → ℕ → EwaAdvance → Currency → Kobo → PostingRequest
settlement payable receivable item adv currency portion =
    movement (settlement_key adv item) adv.id payable.id receivable.id (kobo_in currency portion)

-- The part of what is owed that the pay which remains can cover.
abbrev pub portion_of : Kobo → Kobo → Kobo
portion_of owed remaining = if ltb_ℤ remaining owed then remaining else owed

-- The recovery is complete: unless another writer was faster, the advance is settled.
unfoldable pub close_advance : EwaAdvance → ℕ → M (Unit {0})
close_advance adv item = do
  lost ← race_lost (transition_advance adv disbursed settled)
  if lost
      then pure tt
      else update_advances (λ a. a.id == adv.id)
          (λ a. record a { settled_payroll_item_id = some item })
        >> pure tt

-- One recovery: the posting, the advance's recovered total, and its status or an audit event.
unfoldable pub recover :
    Currency → LedgerAccount → LedgerAccount → ℕ → EwaAdvance → Kobo → M (Unit {0})
unfolding close_advance
recover currency receivable payable item adv portion = do
  post_transaction (settlement payable receivable item adv currency portion)
  recovered_total ← lift (Kobo.add adv.recovered_kobo portion)
  untouched ←
      update_advances (λ a. a.id == adv.id && eqb_ℤ a.recovered_kobo adv.recovered_kobo)
        (λ a. record a { recovered_kobo = recovered_total })
  fail_if untouched stale_status
  if leb_ℤ adv.amount_kobo recovered_total
      then close_advance (record adv { recovered_kobo = recovered_total }) item
      else append_audit adv.id partially_settled

-- The loop over the advances, with what is withheld and what remains of the pay.
unfoldable pub settle_each :
    Currency → LedgerAccount → LedgerAccount → ℕ → List EwaAdvance → Kobo → Kobo → M Kobo
unfolding recover
settle_each currency receivable payable item [] withheld remaining = pure withheld
settle_each currency receivable payable item (adv ∷ rest) withheld remaining =
    let skip = settle_each currency receivable payable item rest withheld remaining in
    let onward =
      λ (next left : Kobo). settle_each currency receivable payable item rest next left in
    let owed = remaining_kobo adv in
    let portion = portion_of owed remaining in
    if same_status adv.status approved
    then ignore_stale (cancel_advance adv approved settled_before_disbursement) >> skip
    else if Kobo.is_positive owed
    then if Kobo.is_positive portion
      then recover currency receivable payable item adv portion
        >> (lift (Kobo.add withheld portion) >>= λ next.
            lift (Kobo.sub remaining portion) >>= λ left. onward next left)
      else skip
    else skip

-- The advances that are open in a period: drawn in it or earlier, and not yet at an end.
abbrev pub is_open : ℕ → ℕ → EwaAdvance → Bool
is_open employee period a = a.employee_id == employee && leb a.period period && is_outstanding a

-- What follows the early return.
unfoldable pub settle_all : ℕ → ℕ → List EwaAdvance → Kobo → M Kobo
unfolding settle_each
settle_all employee item advances available = do
  currency ← org_currency_tx
  receivable ← ensure_account (some employee) advance_receivable currency
  payable ← ensure_account (some employee) wage_payable currency
  settle_each currency receivable payable item advances (pos 0) available

unfoldable pub settle_advances_for_payroll_item : ℕ → ℕ → ℕ → Kobo → M Kobo
unfolding settle_all by_request is_outstanding
settle_advances_for_payroll_item employee period item available = do
  statement
  advances ← gets (λ s. by_request (select (is_open employee period) s.advances))
  if length advances == 0 then pure (pos 0) else settle_all employee item advances available

-- The receivable that an approved advance opens.
unfoldable pub post_advance_ledger : ℕ → EwaAdvance → M LedgerTransaction
post_advance_ledger employee adv = do
  currency ← org_currency_tx
  receivable ← ensure_account (some employee) advance_receivable currency
  cash ← ensure_account none cash_settlement currency
  post_transaction (
      movement (advance_key ewa_advance adv) adv.id receivable.id cash.id
        (kobo_in currency adv.amount_kobo))

-- What is open, and the part of it that is paid out already.
unfoldable pub open_totals : List EwaAdvance → Kobo → Kobo → M (Kobo × Kobo)
open_totals [] outstanding recoverable = pure (outstanding, recoverable)
open_totals (r ∷ rest) outstanding recoverable =
    lift (Kobo.add outstanding (remaining_kobo r)) >>= λ total.
    if same_status r.status disbursed
    then lift (Kobo.add recoverable (remaining_kobo r)) >>= (λ paid. open_totals rest total paid)
    else open_totals rest total recoverable

-- The time of the last draw: zero where there is none.
unfoldable pub last_draw : List EwaAdvance → ℕ → ℕ
last_draw [] at = at
last_draw (r ∷ rest) at = last_draw rest (if ltb at r.requested_at then r.requested_at else at)

pub record Outstanding : Type 0 where
  pub outstanding : Kobo
  pub recoverable : Kobo
  pub draw_count : ℕ
  pub last_draw_at : ℕ

abbrev pub is_drawn : EwaAdvance → Bool
is_drawn a = is_outstanding a || same_status a.status settled

unfoldable pub outstanding_tx : ℕ → ℕ → M Outstanding
unfolding open_totals last_draw is_outstanding
outstanding_tx employee period = do
  statement
  current ←
      gets (λ s.
        select (λ a. a.employee_id == employee && a.period == period && is_drawn a) s.advances)
  statement
  open_rows ← gets (λ s. select (is_open employee period) s.advances)
  totals ← open_totals open_rows (pos 0) (pos 0)
  pure (record {
    outstanding = totals.0;
    recoverable = totals.1;
    draw_count = length current;
    last_draw_at = last_draw current 0;
  })
