-- ===== src/Debit/Callback.antt =====
-- The callback of a direct debit (internal/api/handlers/d2c_webhook_handler.go).
use gopayrollengine.Base.{ℕ, false, not, Option, none, some, ◌==◌, if◌then◌else◌}
use gopayrollengine.Base.Lists.{find}
use gopayrollengine.Base.Result.{Error, already_resolved}
use gopayrollengine.Store.{D2cDebitCollection, collection_pending, with_org_scope}
use gopayrollengine.Webhook.{
  status_ok, bad_request, server_error, Handler, reply, answer, looked_up,
}
use gopayrollengine.Debit.{
  same_collection_status, confirm_d2c_collection_success, confirm_d2c_collection_failure,
}

pub data DebitStatus : Type 0 where
  debit_successful debit_failed other_status : DebitStatus

-- A collection that is resolved already is no error.
abbrev pub unless_resolved : Error → Handler
unless_resolved already_resolved = reply status_ok
unless_resolved e = reply server_error

unfoldable pub collection_callback : DebitStatus → D2cDebitCollection → Handler
unfolding answer confirm_d2c_collection_success confirm_d2c_collection_failure
collection_callback status c =
    if not (same_collection_status c.status collection_pending)
    then reply status_ok
    else elim status [
      | debit_successful ↦
          answer (with_org_scope (confirm_d2c_collection_success c)) unless_resolved
            (λ _. reply status_ok)
      | debit_failed ↦
          answer (with_org_scope (confirm_d2c_collection_failure c)) unless_resolved
            (λ _. reply status_ok)
      | other_status ↦ reply bad_request
    ]

-- none is a body that does not bind.
unfoldable pub handle_d2c_debit_webhook : Option (ℕ × DebitStatus) → Handler
unfolding looked_up collection_callback
handle_d2c_debit_webhook none = reply bad_request
handle_d2c_debit_webhook (some payload) =
    looked_up
      (λ s.
        find (λ c. elim c.provider_reference [ none ↦ false | some r ↦ r == payload.0 ])
          s.collections)
      (collection_callback payload.1)
