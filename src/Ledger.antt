-- ===== src/Ledger.antt =====
-- internal/models/ledger.go: posting to the double-entry ledger, and reading it. The proofs are
-- in the children.
pub mod Request
pub mod Validate
pub mod Complete
pub mod Frame
pub mod Books
pub mod Replay
unfoldable pub use Request.*
use gopayrollengine.Base.{
  ℕ, ◌+◌, Bool, true, false, ◌&&◌, Option, none, some, List, [], ◌∷◌, ◌++◌, map, ◌==◌,
  if◌then◌else◌, not,
}
use gopayrollengine.Base.Int.{ℤ, pos, ◌+ℤ◌}
use gopayrollengine.Base.Int64.{sub64, in_range}
use gopayrollengine.Base.Lists.{find, is_some}
use gopayrollengine.Base.Result.{
  database, unknown_account_type, unknown_currency, duplicate_key, record_not_found, missing_key,
}
use gopayrollengine.Money.Currency.{Currency, Money, same_currency, is_valid}
use gopayrollengine.Store.{
  Direction, debit, credit, unlisted_direction, Direction-discrete, AccountType,
  AccountType-discrete, LedgerAccount, KeyPrefix-discrete, Key, LedgerTransaction, LedgerEntry,
  OptionalId-discrete, Store, M, pure, fail, lift, gets, or_fail, modify, fail_if, statement,
  draw_id, if_found, ◌>>=◌, ◌>>◌,
}

abbrev pub is_yes {ℓ} : {A : Type ℓ} → Dec A → Bool
is_yes (yes e) = true
is_yes (no ne) = false

abbrev pub same_id : Option ℕ → Option ℕ → Bool
same_id a b = is_yes (OptionalId-discrete a b)

abbrev pub same_key : Key → Key → Bool
same_key k l =
    is_yes (KeyPrefix-discrete k.prefix l.prefix) && k.subject == l.subject && same_id k.item l.item

abbrev pub same_direction : Direction → Direction → Bool
same_direction d e = is_yes (Direction-discrete d e)

-- The insert of a ledger transaction: an identifier that is taken is refused.
unfoldable pub create_transaction : LedgerTransaction → M LedgerTransaction
create_transaction row = do
  statement
  taken ← gets (λ s. find (λ t. t.id == row.id) s.transactions)
  fail_if (is_some taken) duplicate_key
  modify (λ s. record s { transactions = s.transactions ++ row ∷ [] })
  pure row

abbrev pub entry_row : ℕ → EntryInput → LedgerEntry
entry_row transaction e = record {
  transaction_id = transaction;
  account_id = e.account_id;
  direction = e.direction;
  amount_minor = e.amount.minor;
  currency = e.amount.currency;
}

abbrev pub replayed : Option Key → LedgerTransaction → Bool
replayed none t = false
replayed (some k) t = same_key k t.idempotency_key

-- What follows the replay check.
unfoldable pub post_new : PostingRequest → Key → M LedgerTransaction
unfolding create_transaction
post_new req key = do
  id ← draw_id
  ltx ←
      create_transaction
        (record { id = id; kind = req.kind; reference = req.reference; idempotency_key = key })
  statement
  modify (λ s. record s { entries = s.entries ++ map (entry_row ltx.id) req.entries })
  pure ltx

unfoldable pub post_transaction : PostingRequest → M LedgerTransaction
post_transaction req = do
  lift (validate_posting req)
  statement
  existing ← gets (λ s. find (replayed req.idempotency_key) s.transactions)
  if_found existing (or_fail req.idempotency_key missing_key >>= post_new req) pure

abbrev is_account : Option ℕ → AccountType → Currency → LedgerAccount → Bool
is_account employee kind currency a =
    is_yes (AccountType-discrete a.account_type kind)
    && same_currency a.currency currency
    && same_id a.employee_id employee

-- The insert of an account.
unfoldable pub create_account : LedgerAccount → M LedgerAccount
create_account row = do
  statement
  taken ← gets (λ s. find (λ a. a.id == row.id) s.accounts)
  fail_if (is_some taken) duplicate_key
  modify (λ s. record s { accounts = s.accounts ++ row ∷ [] })
  pure row

unfoldable pub ensure_account : Option ℕ → AccountType → Currency → M LedgerAccount
unfolding create_account
ensure_account employee kind currency = do
  normal ← or_fail (normal_balance kind) unknown_account_type
  fail_if (not (is_valid currency)) unknown_currency
  statement
  found ← gets (λ s. find (is_account employee kind currency) s.accounts)
  let row : ℕ → LedgerAccount = λ id. record {
    id = id;
    employee_id = employee;
    account_type = kind;
    normal_balance = normal;
    currency = currency;
  }
  if_found found (draw_id >>= λ id. create_account (row id)) pure

-- SUM(amount_kobo) over the entries of one account on one side.
unfoldable pub side_sum : Direction → ℕ → List LedgerEntry → ℤ
side_sum d account [] = pos 0
side_sum d account (e ∷ rest) =
    let later = side_sum d account rest in
    if e.account_id == account && same_direction e.direction d
    then e.amount_minor +ℤ later
    else later

-- The balance, from the sums that the query returns.
unfoldable pub balance_of : Direction → ℤ → ℤ → ℤ
balance_of debit debits credits = sub64 debits credits
balance_of _ debits credits = sub64 credits debits

unfoldable pub account_balance : ℕ → M Money
unfolding side_sum balance_of
account_balance account = do
  statement
  found ← gets (λ s. find (λ a. a.id == account) s.accounts)
  acct ← or_fail found record_not_found
  statement
  debits ← gets (λ s. side_sum debit account s.entries)
  credits ← gets (λ s. side_sum credit account s.entries)
  -- A sum beyond int64 does not scan into the row.
  fail_if (not (in_range debits && in_range credits)) database
  pure (record { minor = balance_of acct.normal_balance debits credits; currency = acct.currency })
