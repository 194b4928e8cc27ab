-- ===== src/Payroll/Life/Fates.antt =====
-- What sending a batch may make of its lines (internal/workers/payroll_worker.go).
use gopayrollengine.Base.{ℕ, ◌≡◌, refl, ap, ◌∙◌, Bool, true, false, List, none, arith}
use gopayrollengine.Store.{
  PayrollItem, PayrollStatus, PayrollStatus-discrete, pending, processing, completed, failed,
}
use gopayrollengine.Payroll.Life.{TakesStep}
use gopayrollengine.Payroll.Send.{is_marked, sent, is_sent}

-- What a task may make of a line's status, and whether lines may be given back.
pub may_become : Bool → PayrollStatus → PayrollStatus → Bool
may_become gives_back pending pending = true
may_become gives_back pending processing = true
may_become gives_back pending failed = true
may_become gives_back processing processing = true
may_become gives_back processing pending = gives_back
may_become gives_back failed failed = true
may_become gives_back completed completed = true
may_become gives_back _ _ = false

-- A line and what became of it.
pub record Follows (allowed : PayrollStatus → PayrollStatus → Bool) (a b : PayrollItem)
    : Type 0 where
  pub id : b.id ≡ a.id
  pub payroll_id : b.payroll_id ≡ a.payroll_id
  pub employee_id : b.employee_id ≡ a.employee_id
  pub amount : b.amount ≡ a.amount
  pub attempt : b.attempt ≡ a.attempt
  pub status : allowed a.status b.status ≡ true

abbrev pub Sent : Bool → PayrollItem → PayrollItem → Type 0
Sent gives_back = Follows (may_become gives_back)

-- A line that the bank never took is given back.
pub may_return : PayrollStatus → PayrollStatus → Bool
may_return pending pending = true
may_return processing processing = true
may_return processing pending = true
may_return failed failed = true
may_return completed completed = true
may_return _ _ = false

abbrev pub Returned : PayrollItem → PayrollItem → Type 0
Returned = Follows may_return

pub may_stay : (gives_back : Bool) (p : PayrollStatus) → may_become gives_back p p ≡ true
unfolding may_become
may_stay gives_back p = ground arith

pub may_keep : (p : PayrollStatus) → may_return p p ≡ true
unfolding may_return
may_keep p = ground arith

pub Follows-refl :
    (allowed : PayrollStatus → PayrollStatus → Bool)
    → ((p : PayrollStatus) → allowed p p ≡ true)
    → (a : PayrollItem) → Follows allowed a a
Follows-refl allowed stays a = record {
  id = refl;
  payroll_id = refl;
  employee_id = refl;
  amount = refl;
  attempt = refl;
  status = stays a.status;
}

-- Lines that were sent, and then given back.
pub both_ways :
    (p q r : PayrollStatus)
    → may_become false p q ≡ true
    → may_return q r ≡ true
    → may_become true p r ≡ true
unfolding may_become may_return
both_ways p q r h k = ground arith

pub either_way :
    (gives_back : Bool) (p q : PayrollStatus)
    → may_become false p q ≡ true
    → may_become gives_back p q ≡ true
unfolding may_become
either_way gives_back p q h = ground arith

pub Sent-Returned : (a b c : PayrollItem) → Sent false a b → Returned b c → Sent true a c
Sent-Returned a b c f g = record {
  id = g.id ∙ f.id;
  payroll_id = g.payroll_id ∙ f.payroll_id;
  employee_id = g.employee_id ∙ f.employee_id;
  amount = g.amount ∙ f.amount;
  attempt = g.attempt ∙ f.attempt;
  status = both_ways a.status b.status c.status f.status g.status;
}

-- A change of the status alone.
pub status_TakesStep :
    (allowed : PayrollStatus → PayrollStatus → Bool) (wanted : PayrollItem → Bool)
    (next : PayrollStatus) (change : PayrollItem → PayrollItem)
    → ((b : PayrollItem)
        → ((change b).id ≡ b.id)
          × ((change b).payroll_id ≡ b.payroll_id)
          × ((change b).employee_id ≡ b.employee_id)
          × ((change b).amount ≡ b.amount)
          × ((change b).attempt ≡ b.attempt)
          × ((change b).status ≡ next))
    → ((p : PayrollStatus) (b : PayrollItem)
        → allowed p b.status ≡ true
        → wanted b ≡ true
        → allowed p next ≡ true)
    → TakesStep (Follows allowed) wanted change
status_TakesStep allowed wanted next change same lands = record {
  step = λ a b f h.
      let (i, p, e, m, n, t) = same b in
      record {
        id = i ∙ f.id;
        payroll_id = p ∙ f.payroll_id;
        employee_id = e ∙ f.employee_id;
        amount = m ∙ f.amount;
        attempt = n ∙ f.attempt;
        status = ap (λ q. allowed a.status q) t ∙ lands a.status b f.status h;
      };
}

pub is_pending : (ids : List ℕ) (b : PayrollItem) → is_marked ids b ≡ true → b.status ≡ pending
unfolding PayrollStatus-discrete
is_pending ids b h = ground arith

pub is_processing :
    (payroll : ℕ) (b : PayrollItem) → is_sent payroll b ≡ true → b.status ≡ processing
unfolding PayrollStatus-discrete
is_processing payroll b h = ground arith

pub pending_sent :
    (p q : PayrollStatus)
    → may_become false p q ≡ true
    → q ≡ pending
    → may_become false p processing ≡ true
unfolding may_become
pending_sent p q h e = ground arith

pub pending_failed :
    (p q : PayrollStatus)
    → may_become false p q ≡ true
    → q ≡ pending
    → may_become false p failed ≡ true
unfolding may_become
pending_failed p q h e = ground arith

pub processing_returned :
    (p q : PayrollStatus) → may_return p q ≡ true → q ≡ processing → may_return p pending ≡ true
unfolding may_return
processing_returned p q h e = ground arith

pub sent-TakesStep : (ids : List ℕ) (now : ℕ) → TakesStep (Sent false) (is_marked ids) (sent now)
sent-TakesStep ids now =
    status_TakesStep (may_become false) _ processing _ (λ b. (refl, refl, refl, refl, refl, refl))
      (λ p b h w. pending_sent p b.status h (is_pending ids b w))

pub orphaned-TakesStep :
    (ids : List ℕ) (now : ℕ)
    → TakesStep (Sent false) (is_marked ids) (λ i. record i { status = failed; updated_at = now })
orphaned-TakesStep ids now =
    status_TakesStep (may_become false) _ failed _ (λ b. (refl, refl, refl, refl, refl, refl))
      (λ p b h w. pending_failed p b.status h (is_pending ids b w))

pub Returned-TakesStep :
    (payroll now : ℕ)
    → TakesStep Returned
        (is_sent payroll)
        (λ i. record i { status = pending; sent_at = none; updated_at = now })
Returned-TakesStep payroll now =
    status_TakesStep may_return _ pending _ (λ b. (refl, refl, refl, refl, refl, refl))
      (λ p b h w. processing_returned p b.status h (is_processing payroll b w))
