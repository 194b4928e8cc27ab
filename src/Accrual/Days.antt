-- ===== src/Accrual/Days.antt =====
-- The loop that counts working days (internal/services/ewa_service.go).
use gopayrollengine.Base.{
  ℕ, zero, suc, ◌≡◌, ◌+◌, ◌-◌, ◌*◌, ◌/◌, ◌%◌, ◌≤◌, ◌<◌, Option, some, arith, Bool, if◌then◌else◌,
  dec_lt, lt→ltb, ◌∙◌, ap, ltb,
}
use gopayrollengine.Accrual.{is_working, count_days, working_days_between}

-- The working days among the first x days of a calendar that begins on a Sunday.
pub before_day : ℕ → ℕ
before_day x = 5 * (x / 7) + (x % 7 - 1)

before_day-suc : (x : ℕ) → before_day (x + 1) ≡ before_day x + (if is_working (x % 7) then 1 else 0)
unfolding before_day is_working
before_day-suc x = ground arith

before_day_mono : (x y : ℕ) → x ≤ y → before_day x ≤ before_day y
unfolding before_day
before_day_mono x y h = ground arith

count_working : Bool → ℕ → ℕ
count_working working count = if working then count + 1 else count

count_working-add :
    (working : Bool) (count : ℕ) → count_working working count ≡ count + (if working then 1 else 0)
unfolding count_working
count_working-add working count = ground arith

-- Days are numbered so that the weekday of the day d is (d + shift) modulo 7.
module _ (weekday : ℕ → ℕ) (shift : ℕ) (cycle : (d : ℕ) → weekday d ≡ (d + shift) % 7) where
  round :
      (d to count : ℕ)
      → d < to
      → count_working (is_working (weekday d)) count
          + (before_day (to + shift) - before_day (d + 1 + shift))
        ≡ count + (before_day (to + shift) - before_day (d + shift))
  round d to count h =
      rw (cycle d, count_working-add (is_working ((d + shift) % 7)) count)
        (omega (
          arith,
          before_day-suc (d + shift),
          e,
          before_day_mono (d + 1 + shift) (to + shift) (omega arith),
        ))
    where
      e : before_day (d + shift + 1) ≡ before_day (d + 1 + shift)
      e = ap before_day (omega arith)

  here :
      (later : Option ℕ) (to count : ℕ)
      → (if ltb to to then later else some count)
        ≡ some (count + (before_day (to + shift) - before_day (to + shift)))
  here later to count = ground arith

  -- With fuel for one round more than the days left, the loop ends, and it has counted them by the
  -- closed form.
  pub count_days-returns :
      (fuel d to count : ℕ)
      → to < fuel + d
      → d ≤ to
      → count_days weekday fuel d to count
        ≡ some (count + (before_day (to + shift) - before_day (d + shift)))
  unfolding count_days count_working
  count_days-returns zero d to count h k = absurd (omega arith)
  count_days-returns (suc fuel) d to count h k = elim (dec_lt d to) [
    | yes p ↦ rw (lt→ltb d to p) (
        count_days-returns fuel (d + 1) to (count_working (is_working (weekday d)) count)
          (omega arith) (omega arith)
        ∙ ap some (round d to count p))
    | no p ↦ let e : d ≡ to = omega arith in rw e (here _ to count)
  ]

  -- workingDaysBetween counts, from a day to one that is not before it, the days that are neither
  -- Saturday nor Sunday: a full week has five, and the closed form adds those of the broken weeks.
  pub working_days_between-closed :
      (from to : ℕ)
      → from ≤ to
      → working_days_between weekday from to ≡ before_day (to + shift) - before_day (from + shift)
  unfolding working_days_between
  working_days_between-closed from to h =
      ground (arith, count_days-returns (suc (to - from)) from to 0 (omega arith) h)

  -- A later day has as many working days before it, or more.
  pub working_days_between_mono :
      (from a b : ℕ)
      → from ≤ a
      → a ≤ b
      → working_days_between weekday from a ≤ working_days_between weekday from b
  working_days_between_mono from a b h k = omega (
    arith,
    working_days_between-closed from a h,
    working_days_between-closed from b (omega arith),
    before_day_mono (a + shift) (b + shift) (omega arith),
  )

  pub working_days_between-le :
      (from to : ℕ) → from ≤ to → working_days_between weekday from to ≤ to - from
  unfolding before_day
  working_days_between-le from to h = omega (arith, working_days_between-closed from to h)
