-- ===== src/Policy/Valid.antt =====
-- The policies that an update saves (internal/services/ewa_policy_service.go,
-- payroll_policy_service.go).
use gopayrollengine.Base.{
  ℕ, ◌≡◌, refl, ◌≤◌, Bool, true, false, not, Option, none, some, arith, if◌then◌else◌, subst,
}
use gopayrollengine.Base.Int.{ℤ, pos, ◌≤ℤ◌, ◌<ℤ◌, pos_part, ltb_ℤ, leb_ℤ}
use gopayrollengine.Base.Result.{Result, ok, err, ok-injective, invalid_policy_value}
use gopayrollengine.Money as Kobo
use gopayrollengine.Money.{Kobo}
use gopayrollengine.Store.{EwaPolicy, PayrollPolicy}
use gopayrollengine.Policy.{
  changed, accepts_any, not_a_percentage, below_base_rate, PolicyUpdate, apply_update,
  PayrollPolicyUpdate, apply_payroll_update,
}

-- What the value of a success satisfies.
record Ensures {ℓ} {A : Type ℓ} (Q : A → Type 0) (r : Result A) : Type ℓ where
  at : (a : A) → r ≡ ok a → Q a

Ensures-ok {ℓ} : {A : Type ℓ} {Q : A → Type 0} (a : A) → Q a → Ensures Q (ok a)
Ensures-ok {Q = Q} a q = record { at = λ b e. subst Q (ok-injective e) q }

-- A field passes its check, or keeps a value that had passed.
Ensures-changed {ℓ κ} :
    {A : Type ℓ} {B : Type κ} {Q : B → Type 0} (P : A → Type 0) (refused : A → Bool)
    (given : Option A) (current : A) (after : A → Result B)
    → ((a : A) → refused a ≡ false → P a)
    → P current
    → ((a : A) → P a → Ensures Q (after a))
    → Ensures Q (changed refused given current after)
unfolding changed
Ensures-changed P refused none current after sound held k = k current held
Ensures-changed {A = A} {B = B} {Q = Q} P refused (some a) current after sound held k =
    go (refused a) refl
  where
    go : (b : Bool) → refused a ≡ b → Ensures Q (if b then err invalid_policy_value else after a)
    go true r = record { at = λ b e. absurd cc }
    go false r = k a (sound a r)

-- The bounds of migration 000014.
pub record IsValid (p : EwaPolicy) : Type 0 where
  pub pct : (pos 1 ≤ℤ p.max_accrual_pct) × (p.max_accrual_pct ≤ℤ pos 100)
  pub cap : pos 0 <ℤ p.absolute_cap_kobo
  pub min : pos 0 <ℤ p.min_draw_kobo
  pub draws : 1 ≤ p.max_draws_per_period
  pub floor : pos 0 ≤ℤ p.emergency_floor_kobo

percentage_sound : (n : ℤ) → not_a_percentage n ≡ false → (pos 1 ≤ℤ n) × (n ≤ℤ pos 100)
percentage_sound n h = ground arith

positive_sound : (k : Kobo) → not (Kobo.is_positive k) ≡ false → pos 0 <ℤ k
positive_sound k h = ground arith

at_least_sound : (m : ℕ) (n : ℤ) → ltb_ℤ n (pos m) ≡ false → m ≤ pos_part n
at_least_sound m n h = ground arith

nonneg_sound : (k : Kobo) → Kobo.is_negative k ≡ false → pos 0 ≤ℤ k
nonneg_sound k h = ground arith

apply_update-Ensures :
    (upd : PolicyUpdate) (p : EwaPolicy) → IsValid p → Ensures IsValid (apply_update upd p)
unfolding apply_update
apply_update-Ensures upd p v =
    Ensures-changed (λ _. Unit) accepts_any _ _ _ (λ _ _. tt) tt
      λ enabled _. Ensures-changed _ not_a_percentage _ _ _ percentage_sound v.pct λ pct pct_ok.
        Ensures-changed _ _ _ _ _ positive_sound v.cap λ cap cap_ok.
          Ensures-changed _ _ _ _ _ positive_sound v.min λ min min_ok.
            Ensures-changed (λ n. 1 ≤ pos_part n) _ _ _ _ (at_least_sound 1) v.draws
              λ draws draws_ok.
                Ensures-changed (λ _. Unit) (λ n. ltb_ℤ n (pos 0)) _ _ _ (λ _ _. tt) tt
                  λ hours _.
                    Ensures-changed _ Kobo.is_negative _ _ _ nonneg_sound v.floor λ floor floor_ok.
                      Ensures-changed (λ _. Unit) accepts_any _ _ _ (λ _ _. tt) tt
                        λ coverage _. Ensures-ok _ (record {
                          pct = pct_ok;
                          cap = cap_ok;
                          min = min_ok;
                          draws = draws_ok;
                          floor = floor_ok;
                        })

-- No shift pays less than the base rate, and the weekly threshold is positive.
pub record IsFair (p : PayrollPolicy) : Type 0 where
  pub threshold : pos 0 <ℤ p.overtime_threshold_minutes_per_week
  pub overtime : pos 10000 ≤ℤ p.overtime_multiplier_bps
  pub night : pos 10000 ≤ℤ p.night_shift_multiplier_bps
  pub weekend : pos 10000 ≤ℤ p.weekend_shift_multiplier_bps
  pub holiday : pos 10000 ≤ℤ p.holiday_shift_multiplier_bps

base_rate_sound : (bps : ℤ) → below_base_rate bps ≡ false → pos 10000 ≤ℤ bps
base_rate_sound bps h = ground arith

threshold_sound : (n : ℤ) → leb_ℤ n (pos 0) ≡ false → pos 0 <ℤ n
threshold_sound n h = ground arith

apply_payroll_update-Ensures :
    (upd : PayrollPolicyUpdate) (p : PayrollPolicy)
    → IsFair p
    → Ensures IsFair (apply_payroll_update upd p)
unfolding apply_payroll_update
apply_payroll_update-Ensures upd p v =
    Ensures-changed _ _ _ _ _ threshold_sound v.threshold λ threshold t.
      Ensures-changed _ below_base_rate _ _ _ base_rate_sound v.overtime λ overtime o.
        Ensures-changed _ below_base_rate _ _ _ base_rate_sound v.night λ night n.
          Ensures-changed _ below_base_rate _ _ _ base_rate_sound v.weekend λ weekend w.
            Ensures-changed _ below_base_rate _ _ _ base_rate_sound v.holiday λ holiday h.
              Ensures-ok _
                (record { threshold = t; overtime = o; night = n; weekend = w; holiday = h })

-- An update that UpdatePolicy accepts keeps a policy within its bounds: the share of accrued wages
-- stays between 1 and 100 percent, the cap and the least draw stay positive, at least one draw is
-- allowed, and the floor is not negative.
pub apply_update-IsValid :
    (upd : PolicyUpdate) (p next : EwaPolicy)
    → IsValid p
    → apply_update upd p ≡ ok next
    → IsValid next
apply_update-IsValid upd p next v = (apply_update-Ensures upd p v).at next

-- An update that UpdatePayrollPolicy accepts keeps a payroll policy fair: every multiplier is at
-- least the base rate, and the weekly threshold is positive.
apply_payroll_update-IsFair :
    (upd : PayrollPolicyUpdate) (p next : PayrollPolicy)
    → IsFair p
    → apply_payroll_update upd p ≡ ok next
    → IsFair next
apply_payroll_update-IsFair upd p next v = (apply_payroll_update-Ensures upd p v).at next
