-- ===== src/Store/Rows.antt =====
-- The rows of the tables: the structs of internal/models that the services keep.
use gopayrollengine.Base.{ℕ, Bool, Option, ℕ_discrete}
use gopayrollengine.Base.Int.{ℤ}
use gopayrollengine.Money.{Kobo}
use gopayrollengine.Money.Currency.{Currency}

-- internal/models/ledger.go
pub data Direction : Type 0 where
  debit credit unlisted_direction : Direction

pub data AccountType : Type 0 where
  employer_funding advance_receivable wage_payable cash_settlement fee_income : AccountType
  write_off_expense employee_savings hardship_grant_expense unlisted_account : AccountType

pub record LedgerAccount : Type 0 where
  pub id : ℕ
  pub employee_id : Option ℕ
  pub account_type : AccountType
  pub normal_balance : Direction
  pub currency : Currency

-- The idempotency keys, whose text is a prefix and one or two identifiers joined by colons.
pub data KeyPrefix : Type 0 where
  ewa_advance ewa_settlement ewa_cancellation ewa_write_off ewa_savings : KeyPrefix
  hardship_grant hardship_grant_reversal funding_deposit d2c_collection : KeyPrefix

pub record Key : Type 0 where
  pub prefix : KeyPrefix
  pub subject : ℕ
  pub item : Option ℕ

pub record LedgerTransaction : Type 0 where
  pub id : ℕ
  pub kind : KeyPrefix
  pub reference : ℕ
  pub idempotency_key : Key

pub record LedgerEntry : Type 0 where
  pub transaction_id : ℕ
  pub account_id : ℕ
  pub direction : Direction
  pub amount_minor : ℤ
  pub currency : Currency

-- internal/models/ewa.go
pub data AdvanceStatus : Type 0 where
  requested approved disbursed settled declined cancelled written_off : AdvanceStatus

pub data DependencyTier : Type 0 where
  healthy elevated strained dependent : DependencyTier

pub data DeclineReason : Type 0 where
  ewa_disabled below_minimum exceeds_earned cooling_off draw_limit_reached : DeclineReason
  no_salary_on_file inactive_account funding_pool_exhausted no_income_history : DeclineReason
  settled_before_disbursement employee_terminated provider_failed : DeclineReason
  provider_rejected d2c_debit_collection_exhausted : DeclineReason

pub record EwaAdvance : Type 0 where
  pub id : ℕ
  pub employee_id : ℕ
  pub period : ℕ
  pub amount_kobo : Kobo
  pub fee_kobo : Kobo
  pub status : AdvanceStatus
  pub recovered_kobo : Kobo
  pub accrued_at_request : Kobo
  pub available_at_request : Kobo
  pub dependency_score : ℕ
  pub dependency_tier : DependencyTier
  pub decline_reason : Option DeclineReason
  pub idempotency_key : Option ℕ
  pub settled_payroll_item_id : Option ℕ
  pub provider_name : Option ℕ
  pub provider_reference : Option ℕ
  pub requested_at : ℕ
  pub disbursed_at : Option ℕ
  pub settled_at : Option ℕ

-- internal/models/models.go
pub data PayrollStatus : Type 0 where
  pending processing completed failed : PayrollStatus

pub record Payroll : Type 0 where
  pub id : ℕ
  pub period : ℕ
  pub total_amount : Kobo
  pub status : PayrollStatus
  pub pending_count : ℕ

pub record PayrollItem : Type 0 where
  pub id : ℕ
  pub payroll_id : ℕ
  pub employee_id : ℕ
  pub amount : Kobo
  pub status : PayrollStatus
  pub attempt : ℕ
  pub gross_kobo : Option Kobo
  pub advances_deducted_kobo : Option Kobo
  pub savings_kobo : Option Kobo
  pub sent_at : Option ℕ
  pub settled_at : Option ℕ
  pub updated_at : ℕ
  pub resolved_by : Option ℕ

pub data AuditAction : Type 0 where
  advance_declined advance_approved partially_settled advance_cancelled : AuditAction
  advance_written_off advance_disbursed status_change manually_resolved : AuditAction
  amount_mismatch collected settled_via_d2c_debit collection_failed policy_updated issued :
      AuditAction
  reconciled retry_failed grant_paid grant_lost terminated submitted_entry approved_entry
        rejected_entry :
      AuditAction

pub record AuditEvent : Type 0 where
  pub entity_id : ℕ
  pub action : AuditAction

-- internal/models/ewa.go
pub data SavingsMode : Type 0 where
  fixed_percent round_up unlisted_mode : SavingsMode

pub record EwaSavingsPreference : Type 0 where
  pub employee_id : ℕ
  pub enabled : Bool
  pub mode : SavingsMode
  pub percent : ℤ
  pub round_up_to_kobo : Kobo

pub record EwaWorkerPreference : Type 0 where
  pub employee_id : ℕ
  pub protected_payday_minor : ℤ
  pub last_changed_at : Option ℕ

pub record EwaPolicy : Type 0 where
  pub enabled : Bool
  pub max_accrual_pct : ℤ
  pub absolute_cap_kobo : Kobo
  pub min_draw_kobo : Kobo
  pub max_draws_per_period : ℕ
  pub cooling_off_hours : ℕ
  pub emergency_floor_kobo : Kobo
  pub require_funding_coverage : Bool

-- internal/models/time_entry.go and payroll_policy.go
pub data TimeEntryStatus : Type 0 where
  entry_pending entry_approved entry_rejected : TimeEntryStatus

pub data ShiftType : Type 0 where
  regular night weekend holiday unlisted_shift : ShiftType

-- The work date is a count of days.
pub record TimeEntry : Type 0 where
  pub id : ℕ
  pub employee_id : ℕ
  pub work_date : ℕ
  pub minutes_worked : ℤ
  pub shift_type : ShiftType
  pub status : TimeEntryStatus
  pub paid_payroll_item_id : Option ℕ
  pub approved_by : Option ℕ
  pub approved_at : Option ℕ

pub record PayrollPolicy : Type 0 where
  pub overtime_threshold_minutes_per_week : ℤ
  pub overtime_multiplier_bps : ℤ
  pub night_shift_multiplier_bps : ℤ
  pub weekend_shift_multiplier_bps : ℤ
  pub holiday_shift_multiplier_bps : ℤ

pub record Employee : Type 0 where
  pub id : ℕ
  pub is_active : Bool
  pub is_hourly : Bool
  pub salary : Kobo
  pub hourly_rate_kobo : Kobo

-- internal/models/ewa.go
pub data GrantStatus : Type 0 where
  grant_pending grant_submitted grant_disbursed grant_failed : GrantStatus

pub record EwaHardshipGrant : Type 0 where
  pub id : ℕ
  pub employee_id : ℕ
  pub amount_kobo : Kobo
  pub status : GrantStatus
  pub provider_name : Option ℕ
  pub provider_reference : Option ℕ
  pub submitted_at : Option ℕ
  pub disbursed_at : Option ℕ

-- internal/models/d2c_debit_collection.go, d2c_bank_link.go and organization.go
pub data D2cCollectionStatus : Type 0 where
  collection_pending collection_successful collection_lost : D2cCollectionStatus

pub record D2cDebitCollection : Type 0 where
  pub id : ℕ
  pub employee_id : ℕ
  pub advance_id : ℕ
  pub amount_kobo : Kobo
  pub attempt_number : ℕ
  pub scheduled_for : ℕ
  pub status : D2cCollectionStatus
  pub provider : ℕ
  pub provider_reference : Option ℕ
  pub attempted_at : Option ℕ

pub record D2cBankLink : Type 0 where
  pub id : ℕ
  pub employee_id : ℕ
  pub provider_account_ref : ℕ
  pub is_linked : Bool
  pub debit_mandate_ref : Option ℕ

pub data ConsentType : Type 0 where
  d2c_bank_link_read d2c_debit_mandate other_consent : ConsentType

pub record ConsentRecord : Type 0 where
  pub employee_id : ℕ
  pub consent_type : ConsentType
  pub granted : Bool
  pub consented_at : ℕ
  pub expires_at : Option ℕ

-- internal/models/ewa.go
pub record EwaBill : Type 0 where
  pub id : ℕ
  pub employee_id : ℕ
  pub amount_kobo : Kobo
  pub due_day : ℕ
  pub active : Bool

-- Equality of the enumerations.
unfoldable pub AccountType-discrete : Discrete AccountType
AccountType-discrete = hlevel

unfoldable pub KeyPrefix-discrete : Discrete KeyPrefix
KeyPrefix-discrete = hlevel

unfoldable pub AdvanceStatus-discrete : Discrete AdvanceStatus
AdvanceStatus-discrete = hlevel

unfoldable pub PayrollStatus-discrete : Discrete PayrollStatus
PayrollStatus-discrete = hlevel

unfoldable pub TimeEntryStatus-discrete : Discrete TimeEntryStatus
TimeEntryStatus-discrete = hlevel

unfoldable pub OptionalId-discrete : Discrete (Option ℕ)
OptionalId-discrete = hlevel ℕ_discrete

unfoldable pub Direction-discrete : Discrete Direction
Direction-discrete = hlevel

unfoldable pub D2cCollectionStatus-discrete : Discrete D2cCollectionStatus
D2cCollectionStatus-discrete = hlevel

unfoldable pub ConsentType-discrete : Discrete ConsentType
ConsentType-discrete = hlevel
