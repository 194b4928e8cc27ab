-- ===== src/Debit/Sweep.antt =====
-- The sweep over one organization's advances (internal/services/d2c_sweep_service.go). When the
-- next deposit on a linked account is expected, which PredictNextPayday computes from the
-- provider's list of transactions, is an argument, with the error where there is none.
use gopayrollengine.Base.{
  ℕ, Bool, true, false, not, ◌&&◌, Option, none, some, List, [], ◌∷◌, ltb, ◌==◌, if◌then◌else◌,
}
use gopayrollengine.Base.Lists.{find, select}
use gopayrollengine.Base.Result.{
  Result, ok, err, Error, record_not_found, consent_withdrawn, no_mandate,
}
use gopayrollengine.Money.Currency.{Money}
use gopayrollengine.Store.{
  EwaAdvance, disbursed, D2cDebitCollection, D2cBankLink, collection_pending, d2c_bank_link_read, M,
  pure, lift, gets, or_fail, fail_if, statement, with_org_scope, ◌>>=◌, ◌>>◌,
}
use gopayrollengine.Advance.{same_status}
use gopayrollengine.Debit.{same_collection_status}
use gopayrollengine.Debit.Start.{DebitResult, has_active_consent, initiate_d2c_collection}

pub record D2cSweepResult : Type 0 where
  pub advance_id : Option ℕ
  pub collection : Option D2cDebitCollection
  pub error : Option Error

abbrev pub swept : Option ℕ → Result (Option D2cDebitCollection) → D2cSweepResult
swept advance (ok made) = record { advance_id = advance; collection = made; error = none }
swept advance (err e) = record { advance_id = advance; collection = none; error = some e }

-- An error becomes a result, and the loop goes on.
abbrev pub caught {ℓ} : {A : Type ℓ} → M A → M (Result A)
caught m s = (let (r, t) = m s in (ok r, t))

abbrev pub is_in_flight : List D2cDebitCollection → ℕ → Bool
is_in_flight [] advance = false
is_in_flight (c ∷ rest) advance =
    let later = is_in_flight rest advance in
    if c.advance_id == advance && same_collection_status c.status collection_pending
    then true
    else later

-- The advances that are collectible, and not in flight.
unfoldable pub load_collectible : M (List EwaAdvance)
load_collectible = do
  statement
  collections ← gets (λ s. s.collections)
  statement
  gets (λ s.
      select (λ a. same_status a.status disbursed && not (is_in_flight collections a.id))
        s.advances)

unfoldable pub load_link : ℕ → M (D2cBankLink × Bool)
unfolding has_active_consent
load_link employee = do
  statement
  linked ← gets (λ s. find (λ l. l.employee_id == employee && l.is_linked) s.links)
  link ← or_fail linked record_not_found
  consented ← has_active_consent employee d2c_bank_link_read
  pure (link, consented)

-- none is an advance whose payday is still to come.
unfoldable pub attempt_for_advance :
    ℕ
    → (ℕ → Money → ℕ → DebitResult)
    → (ℕ → Result ℕ)
    → ℕ
    → EwaAdvance
    → M (Option D2cDebitCollection)
unfolding load_link initiate_d2c_collection
attempt_for_advance provider debit predict as_of adv = do
  (link, consented) ← with_org_scope (load_link adv.employee_id)
  fail_if (not consented) consent_withdrawn
  or_fail link.debit_mandate_ref no_mandate
  expected ← lift (predict link.provider_account_ref)
  if ltb as_of expected
      then pure none
      else (initiate_d2c_collection provider debit adv.id expected >>= λ c. pure (some c))

unfoldable pub sweep_advances :
    ℕ
    → (ℕ → Money → ℕ → DebitResult)
    → (ℕ → Result ℕ)
    → ℕ
    → List EwaAdvance
    → M (List D2cSweepResult)
unfolding attempt_for_advance
sweep_advances provider debit predict as_of [] = pure []
sweep_advances provider debit predict as_of (adv ∷ rest) = do
  r ← caught (attempt_for_advance provider debit predict as_of adv)
  later ← sweep_advances provider debit predict as_of rest
  pure (swept (some adv.id) r ∷ later)

unfoldable pub sweep_organization :
    ℕ → (ℕ → Money → ℕ → DebitResult) → (ℕ → Result ℕ) → ℕ → M (List D2cSweepResult)
unfolding load_collectible sweep_advances
sweep_organization provider debit predict as_of = do
  loaded ← caught (with_org_scope load_collectible)
  elim loaded [
    | ok advances ↦ sweep_advances provider debit predict as_of advances
    | err e ↦ pure (swept none (err e) ∷ [])
  ]
