-- ===== src/Debit/Due.antt =====
-- What a direct debit is started for (InitiateD2CCollection of
-- internal/services/d2c_collection_service.go).
use gopayrollengine.Base.{ℕ, ◌≡◌, Bool, true, false, ◌&&◌, Option, some, ◌==◌, ◌+◌}
use gopayrollengine.Base.Lists.{find, select, All}
use gopayrollengine.Base.Result.{Result}
use gopayrollengine.Money as Kobo
use gopayrollengine.Store.{
  EwaAdvance, disbursed, D2cDebitCollection, D2cBankLink, collection_pending, d2c_debit_mandate,
  Store,
}
use gopayrollengine.Store.Keeps.{Keeps}
use gopayrollengine.Store.Gives.{Gives}
use gopayrollengine.Advance.{remaining_kobo, same_status}
use gopayrollengine.Debit.{same_collection_status}
use gopayrollengine.Debit.Start.{is_in_force, latest_consent, same_consent, last_attempt, Prepared}

-- The tables that are read are those of the start.
record Reads (base s : Store) : Type 0 where
  advances : s.advances ≡ base.advances
  links : s.links ≡ base.links
  consents : s.consents ≡ base.consents
  collections : s.collections ≡ base.collections
  now : s.now ≡ base.now

abbrev the_advance : ℕ → Store → Option EwaAdvance
the_advance advance s = find (λ a. a.id == advance) s.advances

abbrev the_link : ℕ → Store → Option D2cBankLink
the_link employee s = find (λ l. l.employee_id == employee && l.is_linked) s.links

-- The worker's last word on debits, if it is still in force.
abbrev has_consented : ℕ → Store → Bool
has_consented employee s = is_in_force s.now (
    latest_consent (
      select (λ c. c.employee_id == employee && same_consent c.consent_type d2c_debit_mandate)
        s.consents))

-- Whether a collection keeps an advance from another one.
abbrev blocks : ℕ → D2cDebitCollection → Bool
blocks advance c = c.advance_id == advance && same_collection_status c.status collection_pending

-- A debit that is due in a store: what is prepared, and why it may be.
pub record IsDue (advance : ℕ) (s : Store) (p : Prepared) : Type 0 where
  pub adv : EwaAdvance
  pub link : D2cBankLink
  pub found : the_advance advance s ≡ some adv
  pub disbursed_yet : same_status adv.status disbursed ≡ true
  pub owed : Kobo.is_positive (remaining_kobo adv) ≡ true
  pub linked : the_link adv.employee_id s ≡ some link
  pub mandated : link.debit_mandate_ref ≡ some p.mandate
  pub consented : has_consented adv.employee_id s ≡ true
  pub alone : All (λ c. blocks adv.id c ≡ false) s.collections
  pub of_advance : p.collection.advance_id ≡ adv.id
  pub recorded : p.collection.amount_kobo ≡ remaining_kobo adv
  pub asked : p.amount.minor ≡ remaining_kobo adv
  pub attempt : p.collection.attempt_number ≡ last_attempt advance s.collections + 1
