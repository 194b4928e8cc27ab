-- ===== src/Debit.antt =====
-- The outcome of a direct debit from a linked account (internal/models/d2c_ledger.go).
pub mod Start
pub mod Callback
pub mod Due
pub mod Sweep
use gopayrollengine.Base.{ℕ, Bool, true, false, ◌&&◌, none, some, ltb, ◌==◌, if◌then◌else◌}
use gopayrollengine.Base.Int.{leb_ℤ, eqb_ℤ}
use gopayrollengine.Base.Lists.{length, find, select}
use gopayrollengine.Base.Result.{stale_status, record_not_found, already_resolved}
use gopayrollengine.Money as Kobo
use gopayrollengine.Money.{Kobo}
use gopayrollengine.Money.Currency.{kobo_in}
use gopayrollengine.Store.{
  cash_settlement, advance_receivable, d2c_collection, EwaAdvance, disbursed, settled,
  d2c_debit_collection_exhausted, D2cDebitCollection, D2cCollectionStatus,
  D2cCollectionStatus-discrete, collection_pending, collection_successful, collection_lost,
  collected, settled_via_d2c_debit, collection_failed, M, pure, lift, gets, or_fail, modify,
  fail_if, statement, ignore_stale, race_lost, ◌>>=◌, ◌>>◌,
}
use gopayrollengine.Ledger.{ensure_account, post_transaction}
use gopayrollengine.Advance.{
  update_where, none_match, update_advances, transition_advance, org_currency_tx, append_audit,
  movement, same_status, write_off_advance,
}

abbrev pub max_d2c_collection_attempts : ℕ
max_d2c_collection_attempts = 4

abbrev pub same_collection_status : D2cCollectionStatus → D2cCollectionStatus → Bool
same_collection_status a b = elim (D2cCollectionStatus-discrete a b) [
  | yes e ↦ true
  | no ne ↦ false
]

-- UPDATE d2c_debit_collections; the result says whether no row was affected.
unfoldable pub update_collections :
    (D2cDebitCollection → Bool) → (D2cDebitCollection → D2cDebitCollection) → M Bool
update_collections wanted change = do
  statement
  untouched ← gets (λ s. none_match wanted s.collections)
  modify (λ s. record s { collections = update_where wanted change s.collections })
  pure untouched

-- The first step of a confirmation: pinned to a pending row.
unfoldable pub resolve_collection : ℕ → D2cCollectionStatus → M (Unit {0})
unfolding update_collections
resolve_collection id status = do
  untouched ←
      update_collections (λ c. c.id == id && same_collection_status c.status collection_pending)
        (λ c. record c { status = status })
  fail_if untouched already_resolved

-- UPDATE of the recovered amount, pinned to the one that was read.
unfoldable pub add_recovered : EwaAdvance → Kobo → M Kobo
unfolding update_advances
add_recovered adv amount = do
  total ← lift (Kobo.add adv.recovered_kobo amount)
  untouched ←
      update_advances (λ a. a.id == adv.id && eqb_ℤ a.recovered_kobo adv.recovered_kobo)
        (λ a. record a { recovered_kobo = total })
  fail_if untouched stale_status
  pure total

-- The last step: a recovered advance is settled, unless another path did so.
unfoldable pub close_collected : D2cDebitCollection → EwaAdvance → Kobo → M (Unit {0})
unfolding transition_advance
close_collected collection adv total =
    if leb_ℤ adv.amount_kobo total
    then (race_lost (transition_advance adv disbursed settled) >>= λ lost.
        if lost then pure tt else append_audit adv.id settled_via_d2c_debit)
    else append_audit collection.id collected

unfoldable pub confirm_d2c_collection_success : D2cDebitCollection → M (Unit {0})
unfolding resolve_collection add_recovered close_collected
confirm_d2c_collection_success collection = do
  resolve_collection collection.id collection_successful
  statement
  found ← gets (λ s. find (λ a. a.id == collection.advance_id) s.advances)
  adv ← or_fail found record_not_found
  currency ← org_currency_tx
  cash ← ensure_account none cash_settlement currency
  receivable ← ensure_account (some collection.employee_id) advance_receivable currency
  post_transaction (
      movement (record { prefix = d2c_collection; subject = collection.id; item = none })
        collection.id cash.id receivable.id (kobo_in currency collection.amount_kobo))
  total ← add_recovered adv collection.amount_kobo
  close_collected collection adv total

abbrev pub is_lost_attempt : ℕ → D2cDebitCollection → Bool
is_lost_attempt advance c =
    c.advance_id == advance && same_collection_status c.status collection_lost

-- What follows the last attempt that is allowed.
unfoldable pub give_up : D2cDebitCollection → M (Unit {0})
unfolding write_off_advance
give_up collection = do
  statement
  found ← gets (λ s. find (λ a. a.id == collection.advance_id) s.advances)
  adv ← or_fail found record_not_found
  if same_status adv.status disbursed
      then ignore_stale (write_off_advance adv d2c_debit_collection_exhausted)
      else pure tt

-- The reason is text.
unfoldable pub confirm_d2c_collection_failure : D2cDebitCollection → M (Unit {0})
unfolding resolve_collection give_up
confirm_d2c_collection_failure collection = do
  resolve_collection collection.id collection_lost
  append_audit collection.id collection_failed
  statement
  failed_attempts ←
      gets (λ s. length (select (is_lost_attempt collection.advance_id) s.collections))
  if ltb failed_attempts max_d2c_collection_attempts then pure tt else give_up collection
