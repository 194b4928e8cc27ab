-- ===== src/Lib.antt =====
-- A model of a payroll engine: a service in Go that keeps a double-entry ledger for
-- organizations, advances wages that workers have earned (EWA), and settles those advances when
-- it pays a payroll. Handlers and queue workers call services, the services run statements inside
-- one transaction of one organization, and the models hold the rows and their state machines.
--
-- Parts, and the code that each is about:
--   Base        integers with Go's division, int64 with its wrap-around, error results
--   Text        what the code uses of Go's strings and strconv: texts are lists of code points
--   Money       pkg/money/money.go; Money/Currency: pkg/money/currency.go; Money/Text: their text
--               forms (FromNairaString, ParseMoney, String, the JSON codec)
--   Store       the tables (structs of internal/models) and WithOrgScope (internal/models/db.go)
--   Ledger      internal/models/ledger.go
--   Advance     internal/models/ewa.go, ewa_ledger.go
--   Settle      SettleAdvancesForPayrollItem, outstandingTx (internal/services/ewa_service.go)
--   Savings     internal/services/ewa_savings_service.go
--   Dependency  the tiers of internal/services/ewa_dependency.go
--   Accrual     what a worker has earned (AccruedToDate and its companions, ewa_service.go)
--   Request     eligibilityTx, SetProtectedPayday; Request/Record: RequestAdvance
--               (ewa_service.go)
--   Policy      internal/services/ewa_policy_service.go, payroll_policy_service.go
--   Bill        internal/services/ewa_bill_service.go
--   Funding     internal/models/funding.go, internal/services/employee_termination_service.go
--   Grant       internal/models/hardship_grant.go; Grant/Issue: internal/services/
--               ewa_hardship_grant_service.go, internal/workers/hardship_grant_worker.go
--   Debit       internal/models/d2c_ledger.go; Debit/Start: d2c_collection_service.go (internal/
--               services); Debit/Sweep: d2c_sweep_service.go; Debit/Callback: internal/api/
--               handlers/d2c_webhook_handler.go
--   Payroll     internal/models/models.go, payroll_item.go, internal/services/payroll_settlement.go,
--               ResolveItem (payroll_lifecycle_service.go)
--   Payroll/Create     CreatePayroll (internal/services/payroll_service.go)
--   Payroll/Send       internal/workers/payroll_worker.go
--   Payroll/Retry      RetryFailedItems (payroll_lifecycle_service.go)
--   Payroll/Reference  ItemReference and ParseItemReference (internal/models/payroll_item.go)
--   Payroll/Life       what sending and retrying make of the lines of a payroll
--   Payroll/Once       the batches of an organization through CreatePayroll
--   Disburse    internal/workers/ewa_disbursement_worker.go
--   Webhook     internal/api/handlers/webhook_handler.go
--   Timesheet   internal/models/time_entry.go, payroll_policy.go; Timesheet/Review:
--               internal/services/time_entry_service.go; Timesheet/Hourly: hourly_pay_service.go
--   Tests       a small store and the results at concrete inputs
--
-- A payroll is created from the active workers: each item's gross pay settles the worker's
-- advances and feeds the worker's savings, and the rest is the net pay. A worker task sends the
-- items to the bank, whose callbacks settle them one by one until the batch closes; failed items
-- are retried under a new reference. Advances, grants and debits are paid out and confirmed in
-- the same way, and all of them post to the ledger.
--
-- An operation keeps its name in snake case. Code that runs statements is an action, a function
-- from the store to a result and the store after it: each statement is counted, and fails where
-- the parameter `faulty` says so; identifiers come from the parameter `uuid`, and the time from
-- `now`, which counts nanoseconds. BEGIN and COMMIT are statements too. A transaction that fails
-- rolls every table back. A CAS update is an update of the rows
-- that satisfy its WHERE, with a test whether there was none. Two writers are two actions in some
-- order on the store that the first one leaves; an action reads a row that another may have
-- changed since its argument was loaded. Loops over rows are structural recursion. The loop over
-- the days of workingDaysBetween has fuel for one round more than the days between its bounds,
-- which the model of that function gives it. An int64 is an integer; where the code adds,
-- subtracts or multiplies raw int64 values, or time.Durations, the model wraps modulo 2 ^ 64. The
-- unique indexes that the code relies on are those of internal/db/migrations/000001 (a period of
-- the payrolls) and 000031 (one pending debit of an advance).
--
-- What a provider, a bank or the queue answers is an argument of the operation that calls it, as
-- are the weekday of a day, the days of a month and the bounds of a period (package time), and the
-- readers of quoted texts and of floating-point numbers (encoding/json, math/big).
--
-- Not modelled: the reading and routing of requests, authentication, the clients of providers,
-- encryption and one-time passwords, reports, metrics, log lines, the texts of errors and audits,
-- soft deletion, and the organization column, since row-level security shows one organization's
-- rows only. Identifiers, periods and idempotency keys are numbers that are compared.
-- ScoreDependency and PredictNextPayday compute in floating point: the score and the income of a
-- linked account are arguments of Request, and the predicted payday is one of Debit/Sweep. The
-- loop of the sweep over all organizations is left out. A query that scans a sum beyond int64
-- fails.
pub mod Base
pub mod Money
pub mod Store
pub mod Ledger
pub mod Advance
pub mod Settle
pub mod Savings
pub mod Dependency
pub mod Funding
pub mod Grant
pub mod Request
pub mod Payroll
pub mod Timesheet
pub mod Accrual
pub mod Text
pub mod Webhook
pub mod Disburse
pub mod Policy
pub mod Debit
pub mod Bill
pub mod Tests
