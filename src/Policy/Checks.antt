-- ===== src/Policy/Checks.antt =====
-- The checks of a policy's update: internal/services/ewa_policy_service.go and
-- payroll_policy_service.go. The counselling resource is text that nothing here reads.
use gopayrollengine.Base.{Bool, false, not, ◌||◌, Option, none, some, if◌then◌else◌}
use gopayrollengine.Base.Int.{ℤ, pos, pos_part, ltb_ℤ, leb_ℤ}
use gopayrollengine.Base.Result.{Result, ok, err, invalid_policy_value}
use gopayrollengine.Money as Kobo
use gopayrollengine.Money.{Kobo}
use gopayrollengine.Store.Rows.{EwaPolicy, PayrollPolicy}

-- A field that is not given is left as it is; one that its check refuses is an early return.
unfoldable pub changed {ℓ κ} :
    {A : Type ℓ} {B : Type κ} → (A → Bool) → Option A → A → (A → Result B) → Result B
changed refused none current after = after current
changed refused (some value) current after =
    if refused value then err invalid_policy_value else after value

pub record PolicyUpdate : Type 0 where
  pub enabled : Option Bool
  pub max_accrual_pct : Option ℤ
  pub absolute_cap_kobo : Option Kobo
  pub min_draw_kobo : Option Kobo
  pub max_draws_per_period : Option ℤ
  pub cooling_off_hours : Option ℤ
  pub emergency_floor_kobo : Option Kobo
  pub require_funding_coverage : Option Bool

abbrev pub accepts_any : Bool → Bool
accepts_any value = false

abbrev pub not_a_percentage : ℤ → Bool
not_a_percentage pct = ltb_ℤ pct (pos 1) || ltb_ℤ (pos 100) pct

-- The checks of the fields, in the order of the code.
unfoldable pub apply_update : PolicyUpdate → EwaPolicy → Result EwaPolicy
apply_update upd p = changed accepts_any upd.enabled p.enabled λ enabled.
    changed not_a_percentage upd.max_accrual_pct p.max_accrual_pct λ pct.
      changed (λ k. not (Kobo.is_positive k)) upd.absolute_cap_kobo p.absolute_cap_kobo
        λ cap.
          changed (λ k. not (Kobo.is_positive k)) upd.min_draw_kobo p.min_draw_kobo
            λ min.
              changed (λ n. ltb_ℤ n (pos 1)) upd.max_draws_per_period (pos p.max_draws_per_period)
                λ draws.
                  changed (λ n. ltb_ℤ n (pos 0)) upd.cooling_off_hours (pos p.cooling_off_hours)
                    λ hours.
                      changed Kobo.is_negative upd.emergency_floor_kobo p.emergency_floor_kobo
                        λ floor.
                          changed accepts_any upd.require_funding_coverage
                            p.require_funding_coverage
                            λ coverage. ok (record {
                              enabled = enabled;
                              max_accrual_pct = pct;
                              absolute_cap_kobo = cap;
                              min_draw_kobo = min;
                              -- Neither is negative after its check.
                              max_draws_per_period = pos_part draws;
                              cooling_off_hours = pos_part hours;
                              emergency_floor_kobo = floor;
                              require_funding_coverage = coverage;
                            })

pub record PayrollPolicyUpdate : Type 0 where
  pub overtime_threshold_minutes_per_week : Option ℤ
  pub overtime_multiplier_bps : Option ℤ
  pub night_shift_multiplier_bps : Option ℤ
  pub weekend_shift_multiplier_bps : Option ℤ
  pub holiday_shift_multiplier_bps : Option ℤ

abbrev pub below_base_rate : ℤ → Bool
below_base_rate bps = ltb_ℤ bps (pos 10000)

unfoldable pub apply_payroll_update : PayrollPolicyUpdate → PayrollPolicy → Result PayrollPolicy
apply_payroll_update upd p =
    changed (λ n. leb_ℤ n (pos 0)) upd.overtime_threshold_minutes_per_week
      p.overtime_threshold_minutes_per_week
      λ threshold.
        changed below_base_rate upd.overtime_multiplier_bps p.overtime_multiplier_bps λ overtime.
          changed below_base_rate upd.night_shift_multiplier_bps p.night_shift_multiplier_bps
            λ night.
              changed below_base_rate upd.weekend_shift_multiplier_bps
                p.weekend_shift_multiplier_bps
                λ weekend.
                  changed below_base_rate upd.holiday_shift_multiplier_bps
                    p.holiday_shift_multiplier_bps
                    λ holiday. ok (record {
                      overtime_threshold_minutes_per_week = threshold;
                      overtime_multiplier_bps = overtime;
                      night_shift_multiplier_bps = night;
                      weekend_shift_multiplier_bps = weekend;
                      holiday_shift_multiplier_bps = holiday;
                    })
