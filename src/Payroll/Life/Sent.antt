-- ===== src/Payroll/Life/Sent.antt =====
-- The lines through a task that sends a batch (internal/workers/payroll_worker.go).
use gopayrollengine.Base.{Bool, false, List}
use gopayrollengine.Base.Result.{Result}
use gopayrollengine.Store.{PayrollItem, Store, M}
use gopayrollengine.Store.Keeps.{Keeps}
use gopayrollengine.Payroll.Life.{LivesFrom, AllLive}
use gopayrollengine.Payroll.Life.Fates.{Sent}

-- Where an action leads from lines that were sent, or were not.
record Leads {ℓ} {A : Type ℓ} (gives_back : Bool) (base : List PayrollItem) (m : M A) : Type ℓ where
  at : (t : Store) → LivesFrom (Sent false) base t → AllLive (Sent gives_back) base (m t).1.items
