-- ===== src/Timesheet/Split.antt =====
-- How the weekly threshold splits minutes (internal/services/hourly_pay_service.go).
use gopayrollengine.Base.{ℕ, ◌≡◌, ◌+◌, ◌-◌, ◌^◌, ◌<◌, ltb, arith, if◌then◌else◌}
use gopayrollengine.Base.Int.{pos, ◌+ℤ◌, ◌-ℤ◌}
use gopayrollengine.Base.Int64.{add64, sub64, wrap64}
use gopayrollengine.Timesheet.Hourly.{regular_portion}

-- The smaller of the two.
abbrev pub capped : ℕ → ℕ → ℕ
capped threshold n = if ltb n threshold then n else threshold

-- The regular part of an entry is what the week's minutes below the threshold grow by, for
-- minutes that are less than 2 ^ 62.
pub regular_portion-capped :
    (before minutes threshold : ℕ)
    → before < 2 ^ 62
    → minutes < 2 ^ 62
    → threshold < 2 ^ 62
    → regular_portion (pos before) (pos minutes) (pos threshold)
      ≡ pos (capped threshold (before + minutes) - capped threshold before)
unfolding regular_portion add64 sub64 wrap64 ◌+ℤ◌ ◌-ℤ◌
regular_portion-capped before minutes threshold hb hm ht = ground arith

-- Splitting a block of minutes in two, in the same week, gives the same regular minutes in all,
-- for minutes and a threshold that are less than 2 ^ 62 together.
regular_portion-split :
    (before first second threshold : ℕ)
    → before + first < 2 ^ 62
    → first + second < 2 ^ 62
    → threshold < 2 ^ 62
    → regular_portion (pos before) (pos first) (pos threshold)
        +ℤ regular_portion (pos (before + first)) (pos second) (pos threshold)
      ≡ regular_portion (pos before) (pos (first + second)) (pos threshold)
regular_portion-split before first second threshold hf hs ht =
    rw
      (
        regular_portion-capped before first threshold (omega arith) (omega arith) ht,
        regular_portion-capped (before + first) second threshold hf (omega arith) ht,
        regular_portion-capped before (first + second) threshold (omega arith) hs ht,
      )
      (unfold ◌+ℤ◌ in ground arith)
