-- ===== src/Accrual/Share.antt =====
-- Shares of an amount (internal/services/ewa_service.go).
use gopayrollengine.Base.{ℕ, ◌≡◌, ◌+◌, ◌*◌, ◌/◌, ◌%◌, ◌≤◌, ◌<◌, ◌^◌, arith, dec_lt}
use gopayrollengine.Base.Int.{pos, ◌*ℤ◌}
use gopayrollengine.Base.Result.{ok}
use gopayrollengine.Money.{percent}
use gopayrollengine.Money.Percent.{half_even, half_even-le, round_up, percent_rounded}

round_up_same : (q r t d : ℕ) → r ≤ t → round_up q r d ≤ round_up q t d
unfolding round_up
round_up_same q r t d h = ground arith

-- Rounding keeps the order of what it rounds.
round_up_mono :
    (p r q t d : ℕ) → p * d + r ≤ q * d + t → r < d → t < d → round_up p r d ≤ round_up q t d
unfolding round_up
round_up_mono p r q t d h hr ht = elim (dec_lt p q) [
  | yes lt ↦ let step : p * d + d ≤ q * d = grind arith in ground arith
  | no ge ↦ elim (dec_lt q p) [
    | yes gt ↦ absurd (let step : q * d + d ≤ p * d = grind arith in omega arith)
    | no le ↦ let e : p ≡ q = omega arith in rw e (round_up_same q r t d (omega (arith, rw e at h)))
  ]
]

half_even_mono : (a b d : ℕ) → a ≤ b → 0 < d → half_even a d ≤ half_even b d
unfolding half_even
half_even_mono a b d h hd =
    let e : a / d * d + a % d ≡ a = grind arith in
    let e' : b / d * d + b % d ≡ b = grind arith in
    round_up_mono (a / d) (a % d) (b / d) (b % d) d (omega arith) (grind arith) (grind arith)

-- Two shares of an amount that is not negative: the larger share is at least the smaller one, and
-- at most the amount.
pub percent_grows :
    (a m n d : ℕ)
    → a < 2 ^ 63
    → n < 2 ^ 63
    → a * n < 2 ^ 63
    → m ≤ n
    → n ≤ d
    → 0 < d
    → d ≤ 2 ^ 62
    → (q r : ℕ) × (percent (pos a) (pos m) (pos d) ≡ ok (pos q))
      × (percent (pos a) (pos n) (pos d) ≡ ok (pos r))
      × (q ≤ r)
      × (r ≤ a)
unfolding ◌*ℤ◌
percent_grows a m n d ha hn hp h k hd ub =
    let step : a * m ≤ a * n = grind arith in
    (
      half_even (a * m) d,
      half_even (a * n) d,
      percent_rounded (pos a) (pos m) d (ha, omega arith) (omega arith, omega arith)
          (omega arith, omega arith) hd ub,
      percent_rounded (pos a) (pos n) d (ha, omega arith) (hn, omega arith) (hp, omega arith) hd ub,
      half_even_mono (a * m) (a * n) d step hd,
      half_even-le (a * n) a d (grind arith) hd,
    )
