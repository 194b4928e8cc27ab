-- ===== src/Ledger/Books.antt =====
-- The books, as the sums of the entries on each side, through the operations of
-- internal/models/ledger.go.
use gopayrollengine.Base.{
  ℕ, ◌≡◌, refl, ap, sym, ◌∙◌, inl, inr, ◌&&◌, List, [], ◌∷◌, ◌++◌, map, Option, ◌==◌, if◌then◌else◌,
  arith, Bool-cases,
}
use mathlib.Core.Path.{ap₂}
use gopayrollengine.Base.Int.{ℤ, pos, ◌+ℤ◌, int_laws}
use gopayrollengine.Base.Lists.{All}
use gopayrollengine.Money.Currency.{Currency, same_currency}
use gopayrollengine.Store.{
  Direction, debit, credit, Key, LedgerTransaction, LedgerEntry, LedgerAccount, AccountType, Store,
  modify,
}
use gopayrollengine.Store.Keeps.{Keeps, IgnoresTick, Keeps-modify, Keeps-bind-lift, keeps_rules}
use gopayrollengine.Ledger.Validate.{on_side, side_total, IsLine, IsBalanced, Int64Amounts}
use gopayrollengine.Ledger.Complete.{validate_posting-IsBalanced}
use gopayrollengine.Ledger.{
  EntryInput, PostingRequest, validate_posting, entry_row, create_transaction, post_new,
  post_transaction, create_account, ensure_account,
}

-- The exact sum of one side of one transaction's entries in one currency.
pub booked : Direction → ℕ → Currency → List LedgerEntry → ℤ
booked d t c [] = pos 0
booked d t c (e ∷ rest) =
    (if e.transaction_id == t && same_currency e.currency c
      then on_side d e.direction e.amount_minor
      else pos 0)
    +ℤ booked d t c rest

pub record IsBooked (s : Store) : Type 0 where
  pub at : (t : ℕ) (c : Currency) → booked debit t c s.entries ≡ booked credit t c s.entries

booked-append :
    (d : Direction) (t : ℕ) (c : Currency) (xs ys : List LedgerEntry)
    → booked d t c (xs ++ ys) ≡ booked d t c xs +ℤ booked d t c ys
unfolding booked
booked-append d t c [] ys = omega int_laws
booked-append d t c (x ∷ xs) ys = rw (booked-append d t c xs ys) (omega int_laws)

booked-rows :
    (d : Direction) (id t : ℕ) (currency c : Currency) (es : List EntryInput)
    → All (IsLine currency) es
    → booked d t c (map (entry_row id) es)
      ≡ (if id == t && same_currency currency c then side_total d es else pos 0)
unfolding booked
booked-rows d id t currency c [] h = ground arith
booked-rows d id t currency c (e ∷ es) h =
    rw (booked-rows d id t currency c es h.1, h.0.in_currency)
      (elim (Bool-cases (id == t && same_currency currency c)) [
        | inl yes' ↦ rw yes'
        | inr no' ↦ rw no' (omega int_laws)
      ])

rows-IsBooked :
    (req : PostingRequest)
    → IsBalanced req
    → (id : ℕ) (s : Store) → IsBooked s
    → IsBooked (record s { entries = s.entries ++ map (entry_row id) req.entries })
rows-IsBooked req b id s h = record {
  at = λ t c.
      booked-append debit t c s.entries (map (entry_row id) req.entries)
      ∙ ap₂ (λ x y. x +ℤ y) (h.at t c)
          (booked-rows debit id t b.currency c req.entries b.lines
            ∙ ap (λ x. if id == t && same_currency b.currency c then x else pos 0) b.balanced
            ∙ sym (booked-rows credit id t b.currency c req.entries b.lines))
      ∙ sym (booked-append credit t c s.entries (map (entry_row id) req.entries));
}

IsBooked-IgnoresTick : IgnoresTick IsBooked
IsBooked-IgnoresTick = record { at = λ s n h. record { at = h.at } }

ruleset booked_rules = (keeps_rules, IsBooked-IgnoresTick)

-- A change of rows that are not entries.
module _ (f : Store → Store) (same : (s : Store) → (f s).entries ≡ s.entries) where
  pub Keeps-entries : Keeps IsBooked (modify f)
  Keeps-entries = Keeps-modify f λ s h. record { at = λ t c. rw (same s) (h.at t c) }

insert_transaction :
    (row : LedgerTransaction)
    → Keeps IsBooked (modify (λ s. record s { transactions = s.transactions ++ row ∷ [] }))
insert_transaction row = Keeps-entries _ (λ s. refl)

insert_account :
    (row : LedgerAccount)
    → Keeps IsBooked (modify (λ s. record s { accounts = s.accounts ++ row ∷ [] }))
insert_account row = Keeps-entries _ (λ s. refl)

create_transaction-IsBooked : (row : LedgerTransaction) → Keeps IsBooked (create_transaction row)
unfolding create_transaction
create_transaction-IsBooked row = search (booked_rules, insert_transaction)

create_account-IsBooked : (row : LedgerAccount) → Keeps IsBooked (create_account row)
unfolding create_account
create_account-IsBooked row = search (booked_rules, insert_account)

pub ensure_account-IsBooked :
    (employee : Option ℕ) (kind : AccountType) (currency : Currency)
    → Keeps IsBooked (ensure_account employee kind currency)
unfolding ensure_account
ensure_account-IsBooked employee kind currency =
    search (booked_rules, create_account-IsBooked) depth 9

post_new-IsBooked :
    (req : PostingRequest) (key : Key) → IsBalanced req → Keeps IsBooked (post_new req key)
unfolding post_new
post_new-IsBooked req key b =
    search (booked_rules, create_transaction-IsBooked, insert_rows) depth 9
  where
    insert_rows :
        (id : ℕ)
        → Keeps IsBooked
            (modify (λ s. record s { entries = s.entries ++ map (entry_row id) req.entries }))
    insert_rows id = Keeps-modify _ (rows-IsBooked req b id)

-- Posting a request whose amounts are int64 values keeps the books balanced, in every transaction
-- and currency, whether it returns or fails.
pub post_transaction-IsBooked :
    (req : PostingRequest) → Int64Amounts req.entries → Keeps IsBooked (post_transaction req)
unfolding post_transaction
post_transaction-IsBooked req ha = Keeps-bind-lift (validate_posting req) _ λ u valid.
    let b = validate_posting-IsBalanced req ha valid in
    search (booked_rules, post_new-IsBooked req) depth 9
