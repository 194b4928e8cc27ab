-- ===== src/Ledger/Frame.antt =====
-- The tables that the ledger's operations (internal/models/ledger.go) write.
use gopayrollengine.Base.{ℕ, Option, List, [], ◌∷◌, ◌++◌, map}
use gopayrollengine.Money.Currency.{Currency}
use gopayrollengine.Store.{
  AccountType, LedgerAccount, LedgerTransaction, LedgerEntry, AuditEvent, Key, Store, modify,
}
use gopayrollengine.Store.Keeps.{Keeps, IgnoresTick, Keeps-modify, keeps_rules}
use gopayrollengine.Ledger.{
  PostingRequest, entry_row, create_transaction, post_new, post_transaction, create_account,
  ensure_account,
}

pub record IgnoresBooks (P : Store → Type 0) : Type 0 where
  pub tick : IgnoresTick P
  pub accounts : (s : Store) (rows : List LedgerAccount) → P s → P (record s { accounts = rows })
  pub transactions :
      (s : Store) (rows : List LedgerTransaction) → P s → P (record s { transactions = rows })
  pub entries : (s : Store) (rows : List LedgerEntry) → P s → P (record s { entries = rows })
  pub audits : (s : Store) (rows : List AuditEvent) → P s → P (record s { audits = rows })

module _ {P : Store → Type 0} (i : IgnoresBooks P) where
  tick : IgnoresTick P
  tick = i.tick

  insert_transaction :
      (row : LedgerTransaction)
      → Keeps P (modify (λ s. record s { transactions = s.transactions ++ row ∷ [] }))
  insert_transaction row = Keeps-modify _ (λ s h. i.transactions s _ h)

  insert_account :
      (row : LedgerAccount) → Keeps P (modify (λ s. record s { accounts = s.accounts ++ row ∷ [] }))
  insert_account row = Keeps-modify _ (λ s h. i.accounts s _ h)

  insert_entries :
      (req : PostingRequest) (id : ℕ)
      → Keeps P (modify (λ s. record s { entries = s.entries ++ map (entry_row id) req.entries }))
  insert_entries req id = Keeps-modify _ (λ s h. i.entries s _ h)

  create_transaction_frame : (row : LedgerTransaction) → Keeps P (create_transaction row)
  unfolding create_transaction
  create_transaction_frame row = search (keeps_rules, tick, insert_transaction)

  create_account_frame : (row : LedgerAccount) → Keeps P (create_account row)
  unfolding create_account
  create_account_frame row = search (keeps_rules, tick, insert_account)

  post_new_frame : (req : PostingRequest) (key : Key) → Keeps P (post_new req key)
  unfolding post_new
  post_new_frame req key =
      search (keeps_rules, tick, create_transaction_frame, insert_entries) depth 9

  pub post_transaction_frame : (req : PostingRequest) → Keeps P (post_transaction req)
  unfolding post_transaction
  post_transaction_frame req = search (keeps_rules, tick, post_new_frame) depth 9

  pub ensure_account_frame :
      (employee : Option ℕ) (kind : AccountType) (currency : Currency)
      → Keeps P (ensure_account employee kind currency)
  unfolding ensure_account
  ensure_account_frame employee kind currency =
      search (keeps_rules, tick, create_account_frame) depth 9
