-- ===== src/Policy.antt =====
-- internal/services/ewa_policy_service.go and payroll_policy_service.go: the updates of an
-- organization's two policies.
mod Checks
pub mod Valid
unfoldable pub use Checks.*
use gopayrollengine.Base.{ℕ, some}
use gopayrollengine.Store.{
  EwaPolicy, PayrollPolicy, policy_updated, M, pure, lift, modify, statement, with_org_scope, ◌>>=◌,
  ◌>>◌,
}
use gopayrollengine.Advance.{append_audit}
use gopayrollengine.Request.{policy_tx}
use gopayrollengine.Timesheet.Hourly.{payroll_policy_tx}

abbrev pub organization_id : ℕ
organization_id = 0

unfoldable pub get_policy : M EwaPolicy
unfolding policy_tx
get_policy = with_org_scope policy_tx

unfoldable pub update_policy : PolicyUpdate → M EwaPolicy
unfolding policy_tx apply_update
update_policy upd = with_org_scope (do
  current ← policy_tx
  next ← lift (apply_update upd current)
  -- The upsert on the primary key.
  statement
  modify (λ s. record s { policy = some next })
  append_audit organization_id policy_updated
  pure next)

unfoldable pub get_payroll_policy : M PayrollPolicy
unfolding payroll_policy_tx
get_payroll_policy = with_org_scope payroll_policy_tx

unfoldable pub update_payroll_policy : PayrollPolicyUpdate → M PayrollPolicy
unfolding payroll_policy_tx apply_payroll_update
update_payroll_policy upd = with_org_scope (do
  current ← payroll_policy_tx
  next ← lift (apply_payroll_update upd current)
  statement
  modify (λ s. record s { payroll_policy = some next })
  append_audit organization_id policy_updated
  pure next)
