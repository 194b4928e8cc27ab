-- ===== src/Ledger/Replay.antt =====
-- Posting with an idempotency key again (internal/models/ledger.go).
use gopayrollengine.Base.{
  ◌+◌, ◌≡◌, Bool, true, false, List, [], ◌∷◌, ◌++◌, map, none, some, arith, ◌⊎◌, inl, inr,
  Option-cases, ==_refl,
}
use gopayrollengine.Base.Lists.{find}
use gopayrollengine.Base.Result.{ok}
use gopayrollengine.Store.{Key, LedgerTransaction, Store, ◌>>=◌}
use gopayrollengine.Ledger.{
  PostingRequest, validate_posting, replayed, same_key, post_new, post_transaction, entry_row,
}

find-append {ℓ} :
    {A : Type ℓ} (p : A → Bool) (xs : List A) (a : A)
    → find p xs ≡ none
    → p a ≡ true
    → find p (xs ++ a ∷ []) ≡ some a
find-append p [] a h pa = rw pa
find-append p (x ∷ xs) a h pa = ground (arith, find-append p xs a)

same_key_refl : (k : Key) → same_key k k ≡ true
same_key_refl k = ground (arith, ==_refl k.subject)

-- What a successful new posting has written.
post_new-writes :
    (req : PostingRequest) (k : Key) (s : Store) {t : LedgerTransaction} {s1 : Store}
    → post_new req k s ≡ (ok t, s1)
    → (t.idempotency_key ≡ k)
      × (s1.transactions ≡ s.transactions ++ t ∷ [])
      × (s1.entries ≡ s.entries ++ map (entry_row t.id) req.entries)
unfolding post_new ◌>>=◌
post_new-writes req k s e = ground arith

abbrev ticked : Store → Store
ticked s = record s { tick = s.tick + 1 }

-- The two ways in which a posting succeeds: an earlier one is found, or a new one is written.
module _ (req : PostingRequest) (k : Key) (s : Store) {t : LedgerTransaction} {s1 : Store}
    (keyed : req.idempotency_key ≡ some k) (posted : post_transaction req s ≡ (ok t, s1)) where
  pub post_transaction-cases :
      ((find (replayed (some k)) s.transactions ≡ some t) × (s1 ≡ ticked s))
      ⊎ ((find (replayed (some k)) s.transactions ≡ none)
          × (post_new req k (ticked s) ≡ (ok t, s1)))
  unfolding post_transaction ◌>>=◌
  post_transaction-cases = elim (Option-cases (find (replayed (some k)) s.transactions)) [
    | inl absent ↦ inr (absent, ground arith)
    | inr (t0, found) ↦ inl (ground arith, ground arith)
  ]

  post_transaction-found : find (replayed (some k)) s1.transactions ≡ some t
  post_transaction-found = elim post_transaction-cases [
    | inl (found, same) ↦ rw same found
    | inr (absent, new) ↦
        let (key, rows, _) = post_new-writes req k (ticked s) new in
        rw rows (find-append (replayed (some k)) s.transactions t absent (rw key (same_key_refl k)))
  ]

  -- After a posting has succeeded, any valid request with its idempotency key returns the same
  -- transaction and writes nothing, unless the database fails its one query.
  pub post_transaction-replay :
      (again : PostingRequest)
      → again.idempotency_key ≡ some k
      → validate_posting again ≡ ok tt
      → s1.faulty s1.tick ≡ false
      → post_transaction again s1 ≡ (ok t, ticked s1)
  unfolding post_transaction ◌>>=◌
  post_transaction-replay again same valid up = ground (arith, post_transaction-found)
