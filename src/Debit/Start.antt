-- ===== src/Debit/Start.antt =====
-- The start of a direct debit: the consents of internal/models/organization.go, and
-- internal/services/d2c_collection_service.go. The debit provider's answer is an argument.
use gopayrollengine.Base.{
  ℕ, ◌+◌, Bool, true, false, not, ◌&&◌, ◌||◌, Option, none, some, List, [], ◌∷◌, ◌++◌, ltb, ◌==◌,
  if◌then◌else◌,
}
use gopayrollengine.Base.Lists.{find, select, is_some}
use gopayrollengine.Base.Result as Result
use gopayrollengine.Base.Result.{
  duplicate_key, record_not_found, not_collectible, no_mandate, consent_withdrawn,
  provider_unavailable,
}
use gopayrollengine.Money as Kobo
use gopayrollengine.Money.{Kobo}
use gopayrollengine.Money.Currency.{kobo_in, Money}
use gopayrollengine.Store.{
  EwaAdvance, disbursed, D2cDebitCollection, collection_pending, ConsentType, ConsentType-discrete,
  d2c_debit_mandate, ConsentRecord, M, pure, gets, or_fail, modify, fail_if, statement, draw_id,
  with_org_scope, ◌>>=◌, ◌>>◌,
}
use gopayrollengine.Advance.{remaining_kobo, org_currency_tx, same_status}
use gopayrollengine.Debit.{
  same_collection_status, update_collections, confirm_d2c_collection_failure,
}

abbrev pub same_consent : ConsentType → ConsentType → Bool
same_consent a b = elim (ConsentType-discrete a b) [ yes e ↦ true | no ne ↦ false ]

-- ORDER BY consented_at DESC, the first.
unfoldable pub latest_consent : List ConsentRecord → Option ConsentRecord
latest_consent [] = none
latest_consent (c ∷ rest) = elim (latest_consent rest) [
  | none ↦ some c
  | some later ↦ if ltb c.consented_at later.consented_at then some later else some c
]

abbrev pub is_in_force : ℕ → Option ConsentRecord → Bool
is_in_force now none = false
is_in_force now (some c) = c.granted && elim c.expires_at [ none ↦ true | some at ↦ ltb now at ]

abbrev pub or_false : M Bool → M Bool
or_false m s =
    (let (r, t) = m s in
      elim r [ Result.ok b ↦ (Result.ok b, t) | Result.err e ↦ (Result.ok false, t) ])

-- An error of the query reads as no consent.
unfoldable pub has_active_consent : ℕ → ConsentType → M Bool
unfolding latest_consent
has_active_consent employee kind = or_false (
    statement
    >> gets (λ s. is_in_force s.now (
        latest_consent (
          select (λ c. c.employee_id == employee && same_consent c.consent_type kind) s.consents))))

-- COALESCE(MAX(attempt_number), 0)
unfoldable pub last_attempt : ℕ → List D2cDebitCollection → ℕ
last_attempt advance [] = 0
last_attempt advance (c ∷ rest) =
    let later = last_attempt advance rest in
    if c.advance_id == advance && ltb later c.attempt_number then c.attempt_number else later

-- The primary key, and the index that allows one pending attempt for each advance.
abbrev pub collides : D2cDebitCollection → D2cDebitCollection → Bool
collides row c =
    c.id == row.id
    || (c.advance_id == row.advance_id && same_collection_status c.status collection_pending)

unfoldable pub create_collection : D2cDebitCollection → M (Unit {0})
create_collection row = do
  statement
  taken ← gets (λ s. find (collides row) s.collections)
  fail_if (is_some taken) duplicate_key
  modify (λ s. record s { collections = s.collections ++ row ∷ [] })

abbrev pub new_collection : ℕ → EwaAdvance → Kobo → ℕ → ℕ → ℕ → D2cDebitCollection
new_collection id adv remaining attempt scheduled_for provider = record {
  id = id;
  employee_id = adv.employee_id;
  advance_id = adv.id;
  amount_kobo = remaining;
  attempt_number = attempt;
  scheduled_for = scheduled_for;
  status = collection_pending;
  provider = provider;
  provider_reference = none;
  attempted_at = none;
}

-- What is to be debited, and on which mandate.
pub record Prepared : Type 0 where
  pub collection : D2cDebitCollection
  pub mandate : ℕ
  pub amount : Money

unfoldable pub prepare_collection : ℕ → ℕ → ℕ → M Prepared
unfolding has_active_consent last_attempt create_collection
prepare_collection provider advance scheduled_for = do
  statement
  found ← gets (λ s. find (λ a. a.id == advance) s.advances)
  adv ← or_fail found record_not_found
  fail_if (not (same_status adv.status disbursed)) not_collectible
  fail_if (not (Kobo.is_positive (remaining_kobo adv))) not_collectible
  statement
  linked ← gets (λ s. find (λ l. l.employee_id == adv.employee_id && l.is_linked) s.links)
  link ← or_fail linked record_not_found
  mandate ← or_fail link.debit_mandate_ref no_mandate
  consented ← has_active_consent adv.employee_id d2c_debit_mandate
  fail_if (not consented) consent_withdrawn
  statement
  last ← gets (λ s. last_attempt advance s.collections)
  currency ← org_currency_tx
  id ← draw_id
  let row = new_collection id adv (remaining_kobo adv) (last + 1) scheduled_for provider
  create_collection row
  pure (record {
    collection = row;
    mandate = mandate;
    amount = kobo_in currency (remaining_kobo adv);
  })

-- What the provider answers: the rail's reference, or no.
pub data DebitResult : Type 0 where
  debit_accepted : ℕ → DebitResult
  debit_refused : DebitResult

unfoldable pub record_submission : D2cDebitCollection → DebitResult → M D2cDebitCollection
unfolding confirm_d2c_collection_failure update_collections
record_submission row debit_refused = do
  with_org_scope (confirm_d2c_collection_failure row)
  fail_if true provider_unavailable
  pure row
record_submission row (debit_accepted reference) = do
  now ← gets (λ s. s.now)
  with_org_scope (
      update_collections (λ c. c.id == row.id)
        (λ c. record c { provider_reference = some reference; attempted_at = some now }))
  pure (record row { provider_reference = some reference; attempted_at = some now })

unfoldable pub initiate_d2c_collection :
    ℕ → (ℕ → Money → ℕ → DebitResult) → ℕ → ℕ → M D2cDebitCollection
unfolding prepare_collection record_submission
initiate_d2c_collection provider debit advance scheduled_for = do
  p ← with_org_scope (prepare_collection provider advance scheduled_for)
  record_submission p.collection (debit p.mandate p.amount p.collection.id)
