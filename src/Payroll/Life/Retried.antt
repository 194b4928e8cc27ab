-- ===== src/Payroll/Life/Retried.antt =====
-- The lines through RetryFailedItems (internal/services/payroll_lifecycle_service.go).
use gopayrollengine.Base.{ℕ, ◌+◌, Bool, ◌≡◌, ◌⊎◌, refl, sym, ap, ◌∙◌, inl, inr, true, List, arith}
use gopayrollengine.Store.{
  PayrollItem, PayrollStatus-discrete, pending, failed, Store, modify, with_org_scope,
}
use gopayrollengine.Store.Keeps.{Keeps, keeps_rules, with_org_scope-Keeps}
use gopayrollengine.Advance.{update_where}
use gopayrollengine.Payroll.Life.{
  LivesFrom, AllLive, AllLive-refl, TakesStep, tick, rows-LivesFrom, append_audit-LivesFrom,
}
use gopayrollengine.Payroll.Retry.{
  is_retried, released, release, employees_of, retry_tx, retry_failed_items,
}

-- A line, and what a retry makes of it.
pub record Retried (a b : PayrollItem) : Type 0 where
  pub id : b.id ≡ a.id
  pub payroll_id : b.payroll_id ≡ a.payroll_id
  pub employee_id : b.employee_id ≡ a.employee_id
  pub amount : b.amount ≡ a.amount
  pub fate :
      ((b.status ≡ a.status) × (b.attempt ≡ a.attempt))
      ⊎ ((a.status ≡ failed) × (b.status ≡ pending) × (b.attempt ≡ a.attempt + 1))

Retried-refl : (a : PayrollItem) → Retried a a
Retried-refl a = record {
  id = refl;
  payroll_id = refl;
  employee_id = refl;
  amount = refl;
  fate = inl (refl, refl);
}

is_failed : (ids : List ℕ) (b : PayrollItem) → is_retried ids b ≡ true → b.status ≡ failed
unfolding PayrollStatus-discrete
is_failed ids b h = ground arith

released-TakesStep : (ids : List ℕ) (now : ℕ) → TakesStep Retried (is_retried ids) (released now)
released-TakesStep ids now = record {
  step = λ a b f h. record {
    id = f.id;
    payroll_id = f.payroll_id;
    employee_id = f.employee_id;
    amount = f.amount;
    fate = elim f.fate [
      | inl same ↦ inr (sym same.0 ∙ is_failed ids b h, refl, ap (λ n. n + 1) same.1)
      | inr again ↦ absurd (let e : pending ≡ failed = sym again.1 ∙ is_failed ids b h in cc)
    ];
  };
}

module _ (base : List PayrollItem) where
  release-LivesFrom : (ids : List ℕ) → Keeps (LivesFrom Retried base) (release ids)
  unfolding release
  release-LivesFrom ids = search (keeps_rules, tick, rows) depth 9
    where
      rows :
          (now : ℕ)
          → Keeps (LivesFrom Retried base) (
              modify
                (λ s. record s { items = update_where (is_retried ids) (released now) s.items }))
      rows now = rows-LivesFrom _ _ _ (released-TakesStep ids now) base

  employees_of-LivesFrom :
      (items : List PayrollItem) → Keeps (LivesFrom Retried base) (employees_of items)
  unfolding employees_of
  employees_of-LivesFrom items = search (keeps_rules, tick)

  retry_tx-LivesFrom : (payroll : ℕ) → Keeps (LivesFrom Retried base) (retry_tx payroll)
  unfolding retry_tx
  retry_tx-LivesFrom payroll =
      search (keeps_rules, tick, release-LivesFrom, employees_of-LivesFrom, append_audit-LivesFrom)
        depth 14

  retry_in_scope :
      (payroll : ℕ) → Keeps (LivesFrom Retried base) (with_org_scope (retry_tx payroll))
  retry_in_scope payroll = with_org_scope-Keeps _ (tick Retried base) (retry_tx-LivesFrom payroll)

  retry_failed_items-LivesFrom :
      (queued : Bool) (payroll : ℕ)
      → Keeps (LivesFrom Retried base) (retry_failed_items queued payroll)
  unfolding retry_failed_items
  retry_failed_items-LivesFrom queued payroll = search (keeps_rules, retry_in_scope) depth 9

-- RetryFailedItems removes no line and changes no line's batch, worker or amount; each line has the
-- status and the attempt that it had, or it had failed and waits again, under the attempt after
-- the one it had. So no line is marked as paid, and none whose payment is made or under way
-- changes. This holds whether it returns or fails.
pub retry_failed_items-AllLive :
    (queued : Bool) (payroll : ℕ) (s : Store)
    → AllLive Retried s.items (retry_failed_items queued payroll s).1.items
retry_failed_items-AllLive queued payroll s =
    ((retry_failed_items-LivesFrom s.items queued payroll).at s
      (record { rows = AllLive-refl Retried Retried-refl s.items })).rows
