-- ===== src/Store/Keeps.antt =====
-- Invariants of actions: what holds of the state before holds after, whether the action returns
-- or fails. One rule for each way to build an action.
use gopayrollengine.Base.{ℕ, ◌≡◌, refl, ap, Bool, true, false, Option, none, some, if◌then◌else◌}
use gopayrollengine.Base.Result.{Result, ok, err, Error}
use gopayrollengine.Store.Monad.{
  Store, M, pure, fail, lift, gets, or_fail, modify, fail_if, statement, draw_id, if_found, ◌>>=◌,
  ◌>>◌, ignore_stale, ignore_stale_from, race_lost, race_lost_from, with_org_scope, in_transaction,
  rolled_back,
}

pub record Keeps {ℓ} {A : Type ℓ} (P : Store → Type 0) (m : M A) : Type ℓ where
  pub at : (s : Store) → P s → P (m s).1

-- The count of the statements says nothing about the rows.
pub record IgnoresTick (P : Store → Type 0) : Type 0 where
  pub at : (s : Store) (n : ℕ) → P s → P (record s { tick = n })

module _ {ℓ} {P : Store → Type 0} {A : Type ℓ} where
  pub Keeps-or_fail : (found : Option A) (x : Error) → Keeps P (or_fail found x)
  unfolding or_fail
  Keeps-or_fail none x = record { at = λ _ held. held }
  Keeps-or_fail (some row) x = record { at = λ _ held. held }

  pub Keeps-fail : (x : Error) → Keeps P (fail {A = A} x)
  unfolding fail
  Keeps-fail x = record { at = λ _ held. held }

  pub Keeps-gets : (read : Store → A) → Keeps P (gets read)
  unfolding gets
  Keeps-gets read = record { at = λ _ held. held }

  pub Keeps-if :
      (test : Bool) (yes_branch no_branch : M A)
      → Keeps P yes_branch
      → Keeps P no_branch
      → Keeps P (if test then yes_branch else no_branch)
  Keeps-if true yes_branch no_branch ky kn = ky
  Keeps-if false yes_branch no_branch ky kn = kn

  pub Keeps-pure : (a : A) → Keeps P (pure a)
  unfolding pure
  Keeps-pure a = record { at = λ _ held. held }

  pub Keeps-lift : (r : Result A) → Keeps P (lift r)
  unfolding lift
  Keeps-lift r = record { at = λ _ held. held }

module _ {P : Store → Type 0} where
  pub Keeps-fail_if : (c : Bool) (x : Error) → Keeps P (fail_if c x)
  unfolding fail_if
  Keeps-fail_if c x = record { at = λ s h. h }

  pub Keeps-modify : (f : Store → Store) → ((s : Store) → P s → P (f s)) → Keeps P (modify f)
  unfolding modify
  Keeps-modify f keep = record { at = keep }

  pub Keeps-statement : IgnoresTick P → Keeps P statement
  unfolding statement
  Keeps-statement i = record { at = λ s h. i.at s _ h }

  pub Keeps-draw_id : IgnoresTick P → Keeps P draw_id
  unfolding draw_id
  Keeps-draw_id i = record { at = λ s h. i.at s _ h }

module _ {ℓ κ} {P : Store → Type 0} {A : Type ℓ} {B : Type κ} where
  -- A step's result and the state that it leaves decide how the block goes on.
  proceed_keeps :
      (rest : A → M B) (t : Store) (r : Result A)
      → ((a : A) → r ≡ ok a → Keeps P (rest a))
      → P t
      → P ((lift r >>= rest) t).1
  unfolding ◌>>=◌
  proceed_keeps rest t (err x) each held = held
  proceed_keeps rest t (ok a) each held = (each a refl).at t held

  -- The rest of the block may use what a pure step returned.
  pub Keeps-bind-lift :
      (r : Result A) (rest : A → M B)
      → ((a : A) → r ≡ ok a → Keeps P (rest a))
      → Keeps P (lift r >>= rest)
  Keeps-bind-lift r rest each = record { at = λ s. proceed_keeps rest s r each }

  pub Keeps-bind :
      (first : M A) (rest : A → M B)
      → Keeps P first
      → ((a : A) → Keeps P (rest a))
      → Keeps P (first >>= rest)
  unfolding ◌>>=◌
  Keeps-bind first rest kept each = record {
    at = λ s held. proceed_keeps rest (first s).1 (first s).0 (λ a _. each a) (kept.at s held);
  }

  -- The rest may use that the first step has returned.
  pub Keeps-checked :
      (first : M A) (rest : A → M B)
      → Keeps P first
      → ((s t : Store) (a : A) → first s ≡ (ok a, t) → Keeps P (rest a))
      → Keeps P (first >>= rest)
  unfolding ◌>>=◌
  Keeps-checked first rest kept each = record {
    at = λ s held.
        proceed_keeps rest (first s).1 (first s).0
          (λ a e. each s (first s).1 a (ap (λ r. (r, (first s).1)) e)) (kept.at s held);
  }

  pub Keeps-if_found :
      (o : Option A) (absent : M B) (present : A → M B)
      → Keeps P absent
      → ((a : A) → Keeps P (present a))
      → Keeps P (if_found o absent present)
  unfolding if_found
  Keeps-if_found none absent present ka kp = ka
  Keeps-if_found (some a) absent present ka kp = kp a

-- The rest of the block may use that a test did not fail.
pub Keeps-guard {κ} :
    {B : Type κ} {P : Store → Type 0} (c : Bool) (x : Error) (m : M B)
    → (c ≡ false → Keeps P m)
    → Keeps P (fail_if c x >> m)
unfolding ◌>>=◌
Keeps-guard true x m k = record { at = λ s h. h }
Keeps-guard false x m k = record { at = (k refl).at }

ignore_stale_from-keeps :
    (P : Store → Type 0) (r : Result (Unit {0})) (s : Store) → P s → P (ignore_stale_from (r, s)).1
ignore_stale_from-keeps P (ok a) s h = h
ignore_stale_from-keeps P (err Error.stale_status) s h = h
ignore_stale_from-keeps P (err _) s h = h

pub Keeps-ignore_stale :
    {P : Store → Type 0} (m : M (Unit {0})) → Keeps P m → Keeps P (ignore_stale m)
unfolding ignore_stale
Keeps-ignore_stale {P} m k = record {
  at = λ s h. ignore_stale_from-keeps P (m s).0 (m s).1 (k.at s h);
}

pub Keeps-race_lost {ℓ} :
    {A : Type ℓ} {P : Store → Type 0} (m : M A) → Keeps P m → Keeps P (race_lost m)
unfolding race_lost
Keeps-race_lost {A = A} {P} m k = record { at = λ s h. kept (m s).0 (m s).1 (k.at s h) }
  where
    kept : (r : Result A) (s : Store) → P s → P (race_lost_from (r, s)).1
    kept (ok a) s h = h
    kept (err Error.stale_status) s h = h
    kept (err _) s h = h

pub ruleset keeps_rules = (
  Keeps-if_found, Keeps-pure, Keeps-fail, Keeps-lift, Keeps-gets, Keeps-or_fail, Keeps-if,
  Keeps-fail_if, Keeps-statement, Keeps-draw_id, Keeps-bind, Keeps-ignore_stale, Keeps-race_lost,
)

-- A transaction keeps the invariant, whether it commits or rolls back.
module _ {ℓ} {A : Type ℓ} {P : Store → Type 0} where
  rolled_back-keeps :
      IgnoresTick P
      → (s : Store) → P s
      → (r : Result A) (t : Store) → P t
      → P (rolled_back s (r, t)).1
  rolled_back-keeps i s h (ok a) t ht = ht
  rolled_back-keeps i s h (err x) t ht = i.at s t.tick h

  in_transaction-Keeps : (m : M A) → IgnoresTick P → Keeps P m → Keeps P (in_transaction m)
  unfolding in_transaction
  in_transaction-Keeps m i k = Keeps-bind statement _ (Keeps-statement i) λ _.
      Keeps-bind statement _ (Keeps-statement i)
        λ _. Keeps-bind m _ k λ a. Keeps-bind statement _ (Keeps-statement i) λ _. Keeps-pure a

  pub with_org_scope-Keeps : (m : M A) → IgnoresTick P → Keeps P m → Keeps P (with_org_scope m)
  unfolding with_org_scope
  with_org_scope-Keeps m i k = record {
    at = λ s h.
        let (r, t) = in_transaction m s in
        rolled_back-keeps i s h r t ((in_transaction-Keeps m i k).at s h);
  }
