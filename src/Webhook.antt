-- ===== src/Webhook.antt =====
-- internal/api/handlers/webhook_handler.go: what a provider's callback does. The header and the
-- body are read outside: a delivery says whether the secret is set, whether the signature is the
-- one expected (crypto/hmac), and what encoding/json gives. `name` is the text of an identifier.
-- The rows that a lookup finds before the organization is known are those of one organization.
pub mod Refused
use gopayrollengine.Base.{
  ℕ, Bool, true, false, not, ◌&&◌, ◌||◌, Option, none, some, List, [], ◌∷◌, ◌==◌, if◌then◌else◌,
}
use gopayrollengine.Base.Int.{ℤ, pos, eqb_ℤ}
use gopayrollengine.Base.Lists.{find, is_some}
use gopayrollengine.Base.Result.{Result, ok, err, Error}
use gopayrollengine.Money.{Kobo}
use gopayrollengine.Money.Currency.{kobo_in}
use gopayrollengine.Money.Text.{from_naira_string}
use gopayrollengine.Store.{
  EwaAdvance, AdvanceStatus, approved, provider_failed, EwaHardshipGrant, PayrollItem,
  PayrollStatus, completed, failed, amount_mismatch, Store, M, pure, fail, lift, gets, modify,
  fail_if, statement, ignore_stale, with_org_scope, ◌>>=◌, ◌>>◌,
}
use gopayrollengine.Text.{Text, is_empty, same_text, after_prefix}
use gopayrollengine.Advance.{
  same_status, append_audit, org_currency_tx, cancel_advance, confirm_disbursed,
}
use gopayrollengine.Funding.{record_employer_funding}
use gopayrollengine.Grant.{is_unresolved, confirm_grant_disbursed, fail_grant}
use gopayrollengine.Payroll.{same_payroll_status, can_transition, settle_payroll_item}
use gopayrollengine.Payroll.Reference.{parse_item_reference}

-- The status codes of package net/http that the handler answers.
pub data Reply : Type 0 where
  status_ok bad_request unauthorized not_found unprocessable server_error unavailable : Reply

pub data EventType : Type 0 where
  disbursement_successful disbursement_failed successful_transaction other_event : EventType

pub record MonnifyWebhookPayload : Type 0 where
  pub event_type : EventType
  pub transaction_reference : Text
  pub amount : Text

-- `account` is what the reference of the reserved account is registered as, if it is.
pub record MonnifyFundingWebhookPayload : Type 0 where
  pub transaction_reference : Text
  pub account_reference : Text
  pub amount_paid : Text

-- A handler answers, and leaves a state.
abbrev pub Handler : Type 0
Handler = Store → Reply × Store

abbrev pub reply : Reply → Handler
reply r s = (r, s)

-- The answer by what an action gives.
unfoldable pub answer {ℓ} : {A : Type ℓ} → M A → (Error → Handler) → (A → Handler) → Handler
answer m refuse done s = (let (r, t) = m s in elim r [ ok a ↦ done a t | err e ↦ refuse e t ])

-- The query, whose error and whose lack of a row are answered alike.
unfoldable pub looked_up {ℓ} : {A : Type ℓ} → (Store → Option A) → (A → Handler) → Handler
unfolding answer
looked_up row present =
    answer (statement >> gets row) (λ _. reply not_found)
      (λ found. elim found [ none ↦ reply not_found | some a ↦ present a ])

-- A transaction: an error is answered by 500.
unfoldable pub committed {ℓ} : {A : Type ℓ} → M A → Handler
unfolding answer
committed m = answer (with_org_scope m) (λ _. reply server_error) (λ _. reply status_ok)

-- The discrepancy is recorded, and the callback refused, whether the record is written or not.
unfoldable pub refuse_mismatch : ℕ → Handler
unfolding answer
refuse_mismatch id =
    answer (with_org_scope (append_audit id amount_mismatch)) (λ _. reply unprocessable)
      (λ _. reply unprocessable)

-- A success must report the amount that was asked for.
unfoldable pub if_amount_matches : Text → Kobo → ℕ → Handler → Handler
unfolding refuse_mismatch from_naira_string
if_amount_matches reported expected id apply = elim (from_naira_string reported) [
  | err e ↦ reply bad_request
  | ok disbursed ↦ if eqb_ℤ disbursed expected then apply else refuse_mismatch id
]

-- The transition of an item, if it is an edge.
unfoldable pub settle_by_callback : PayrollItem → PayrollStatus → Handler
unfolding committed settle_payroll_item
settle_by_callback item next =
    if can_transition item.status next
    then committed (settle_payroll_item item next none)
    else reply status_ok

-- What follows the lookup of the item.
unfoldable pub item_callback : MonnifyWebhookPayload → ℤ → PayrollItem → Handler
unfolding if_amount_matches settle_by_callback
item_callback payload attempt item =
    if not (eqb_ℤ attempt (pos item.attempt))
    then reply status_ok
    else if same_payroll_status item.status completed || same_payroll_status item.status failed
    then reply status_ok
    else elim payload.event_type [
      | disbursement_successful ↦
          if_amount_matches payload.amount item.amount item.id (settle_by_callback item completed)
      | disbursement_failed ↦ settle_by_callback item failed
      | successful_transaction ↦ reply status_ok
      | other_event ↦ reply status_ok
    ]

unfoldable pub handle_payroll_item_webhook : (ℕ → Text) → MonnifyWebhookPayload → Text → Handler
unfolding looked_up item_callback parse_item_reference
handle_payroll_item_webhook name payload ref = elim (parse_item_reference ref) [
  | none ↦ reply not_found
  | some parsed ↦
      looked_up (λ s. find (λ i. same_text (name i.id) parsed.0) s.items)
        (item_callback payload parsed.1)
]

unfoldable pub advance_callback : MonnifyWebhookPayload → EwaAdvance → Handler
unfolding if_amount_matches committed
advance_callback payload advance =
    if not (same_status advance.status approved) then reply status_ok else elim payload.event_type [
      | disbursement_successful ↦
          if_amount_matches payload.amount advance.amount_kobo advance.id
            (committed (ignore_stale (confirm_disbursed advance)))
      | disbursement_failed ↦
          committed (ignore_stale (cancel_advance advance approved provider_failed))
      | successful_transaction ↦ reply status_ok
      | other_event ↦ reply status_ok
    ]

unfoldable pub handle_ewa_advance_webhook : (ℕ → Text) → MonnifyWebhookPayload → Text → Handler
unfolding looked_up advance_callback
handle_ewa_advance_webhook name payload ref =
    looked_up (λ s. find (λ a. same_text (name a.id) ref) s.advances) (advance_callback payload)

-- A lost race rolls the transaction back, and is no error.
unfoldable pub committed_or_stale : M (Unit {0}) → Handler
unfolding answer
committed_or_stale m =
    answer (ignore_stale (with_org_scope m)) (λ _. reply server_error) (λ _. reply status_ok)

unfoldable pub grant_callback : MonnifyWebhookPayload → EwaHardshipGrant → Handler
unfolding if_amount_matches committed_or_stale
grant_callback payload grant =
    if not (is_unresolved grant.status) then reply status_ok else elim payload.event_type [
      | disbursement_successful ↦
          if_amount_matches payload.amount grant.amount_kobo grant.id
            (committed_or_stale (confirm_grant_disbursed grant))
      | disbursement_failed ↦ committed_or_stale (fail_grant grant)
      | successful_transaction ↦ reply status_ok
      | other_event ↦ reply status_ok
    ]

unfoldable pub handle_hardship_grant_webhook : (ℕ → Text) → MonnifyWebhookPayload → Text → Handler
unfolding looked_up grant_callback
handle_hardship_grant_webhook name payload ref =
    looked_up (λ s. find (λ g. same_text (name g.id) ref) s.grants) (grant_callback payload)

unfoldable pub credit_deposit : Kobo → ℕ → M (Unit {0})
credit_deposit amount deposit = do
  currency ← org_currency_tx
  record_employer_funding (kobo_in currency amount) deposit
  pure tt

-- `registered` says whether the account is one of the organization's, and `number` is the
-- identifier that a deposit's reference stands for; none is JSON that does not parse.
unfoldable pub handle_funding_webhook :
    (Text → Bool) → (Text → ℕ) → Option MonnifyFundingWebhookPayload → Handler
unfolding looked_up committed from_naira_string credit_deposit
handle_funding_webhook registered number none = reply bad_request
handle_funding_webhook registered number (some payload) =
    if is_empty payload.transaction_reference || is_empty payload.account_reference
    then reply bad_request
    else looked_up (λ s. if registered payload.account_reference then some (pos 0) else none)
        (λ _. elim (from_naira_string payload.amount_paid) [
          | err e ↦ reply bad_request
          | ok amount ↦ committed (credit_deposit amount (number payload.transaction_reference))
        ])

-- What is read of a request; none where a step of the reading fails.
pub record Delivery : Type 0 where
  pub is_configured : Bool
  pub body_read : Bool
  pub is_verified : Bool
  pub envelope : Option EventType
  pub payload : Option MonnifyWebhookPayload
  pub funding : Option MonnifyFundingWebhookPayload

-- EWA-
abbrev pub advance_prefix : Text
advance_prefix = 69 ∷ 87 ∷ 65 ∷ 45 ∷ []

-- GRANT-
abbrev pub grant_prefix : Text
grant_prefix = 71 ∷ 82 ∷ 65 ∷ 78 ∷ 84 ∷ 45 ∷ []

-- The dispatch by the reference's prefix.
unfoldable pub dispatch : (ℕ → Text) → Option MonnifyWebhookPayload → Handler
unfolding handle_payroll_item_webhook handle_ewa_advance_webhook handle_hardship_grant_webhook
dispatch name none = reply bad_request
dispatch name (some payload) =
    let ref = payload.transaction_reference in
    if is_empty ref
    then reply bad_request
    else if is_some (after_prefix advance_prefix ref)
    then handle_ewa_advance_webhook name payload ref
    else if is_some (after_prefix grant_prefix ref)
    then handle_hardship_grant_webhook name payload ref
    else handle_payroll_item_webhook name payload ref

unfoldable pub handle_monnify_webhook : (ℕ → Text) → (Text → Bool) → (Text → ℕ) → Delivery → Handler
unfolding handle_funding_webhook dispatch
handle_monnify_webhook name registered number d =
    if not d.is_configured
    then reply unavailable
    else if not d.body_read
    then reply bad_request
    else if not d.is_verified
    then reply unauthorized
    else elim d.envelope [
      | none ↦ reply bad_request
      | some successful_transaction ↦ handle_funding_webhook registered number d.funding
      | some event ↦ dispatch name d.payload
    ]
