-- ===== src/Money/Percent.antt =====
-- Percent of pkg/money/money.go, and its rounding.
use gopayrollengine.Base.{
  ◌≡◌, ◌⊎◌, inl, inr, ℕ, zero, suc, ◌+◌, ◌-◌, ◌*◌, ◌/◌, ◌%◌, ◌^◌, ◌<◌, ◌≤◌, if◌then◌else◌, arith,
  refl, ltb, dec_lt, ◌&&◌, ◌||◌, ◌==◌,
}
use gopayrollengine.Base.Int.{ℤ, pos, negsuc, neg_ℕ, ◌*ℤ◌, ◌-ℤ◌, ◌+ℤ◌, quot, rem, nat_abs, eqb_ℤ}
use gopayrollengine.Base.Int64.{InRange, wrap64, wrap64-eq, mul64, div64, add64, sub64}
use gopayrollengine.Base.Result.{ok}
use gopayrollengine.Money.{Kobo, round_half_even, percent}
use gopayrollengine.Money.Mul.{mul_int-ok}

-- The rounding of a magnitude with quotient q and remainder r by d.
unfoldable pub round_up : ℕ → ℕ → ℕ → ℕ
round_up q r d = if ltb d (2 * r) || (d == (2 * r) && (1 == (q % 2))) then q + 1 else q

unfoldable pub half_even : ℕ → ℕ → ℕ
unfolding round_up
half_even a d = round_up (a / d) (a % d) d

round_half_even_pos :
    (q r d : ℕ)
    → r < d
    → d ≤ 2 ^ 62
    → q < 2 ^ 63
    → (0 < r → q < 2 ^ 62)
    → round_half_even (pos q) (pos r) (pos d) ≡ pos (round_up q r d)
unfolding round_half_even round_up mul64 add64 sub64 wrap64 ◌*ℤ◌ ◌-ℤ◌ ◌+ℤ◌ rem
round_half_even_pos q r d hr hd hq h = ground arith

twice_neg : (r : ℕ) → r < 2 ^ 62 → mul64 (pos 2) (neg_ℕ (suc r)) ≡ negsuc (2 * r + 1)
unfolding mul64 wrap64 ◌*ℤ◌
twice_neg r h = ground arith

step_down : (q : ℕ) → q < 2 ^ 62 → sub64 (neg_ℕ q) (pos 1) ≡ negsuc q
unfolding sub64 wrap64 ◌-ℤ◌
step_down q h = ground arith

negated : (d : ℕ) → d ≤ 2 ^ 62 → sub64 (pos 0) (pos d) ≡ neg_ℕ d
unfolding sub64 wrap64 ◌-ℤ◌
negated d h = ground arith

is_even_neg : (q : ℕ) → eqb_ℤ (rem (neg_ℕ q) (pos 2)) (pos 0) ≡ ((q % 2) == 0)
unfolding rem
is_even_neg zero = refl
is_even_neg (suc q) = ground arith

round_half_even_neg :
    (q r d : ℕ)
    → r < d
    → d ≤ 2 ^ 62
    → (0 < r → q < 2 ^ 62)
    → round_half_even (neg_ℕ q) (neg_ℕ r) (pos d) ≡ neg_ℕ (round_up q r d)
unfolding round_half_even round_up
round_half_even_neg q zero d hr hd h = rw (negated d hd) (unfold mul64 wrap64 ◌*ℤ◌ in ground arith)
round_half_even_neg q (suc r) d hr hd h =
    ground
      (arith, twice_neg r (omega arith), step_down q (h (omega arith)), negated d hd, is_even_neg q)

-- q is a nearest integer to s / d, and the even one of two that are as near.
abbrev pub IsNearest : ℤ → ℤ → ℕ → Type 0
IsNearest q s d =
    (2 * nat_abs (q *ℤ pos d -ℤ s) ≤ d) × (2 * nat_abs (q *ℤ pos d -ℤ s) ≡ d → nat_abs q % 2 ≡ 0)

-- The distance of two magnitudes.
gap : ℕ → ℕ → ℕ
gap x y = if ltb x y then y - x else x - y

round_up-cases :
    (q r d : ℕ)
    → ((round_up q r d ≡ q + 1) × (d ≤ 2 * r) × (d ≡ 2 * r → q % 2 ≡ 1))
      ⊎ ((round_up q r d ≡ q) × (2 * r ≤ d) × (d ≡ 2 * r → q % 2 ≡ 0))
unfolding round_up
round_up-cases q r d = ground arith

round_up-gap :
    (q r d : ℕ)
    → r < d
    → (2 * gap (round_up q r d * d) (q * d + r) ≤ d)
      × (2 * gap (round_up q r d * d) (q * d + r) ≡ d → round_up q r d % 2 ≡ 0)
unfolding gap
round_up-gap q r d h = elim (round_up-cases q r d) [
  | inl (e, up, odd) ↦ rw e (ground arith, ground arith)
  | inr (e, down, even) ↦ rw e (ground arith, ground arith)
]

half_even-gap :
    (a d : ℕ)
    → 0 < d
    → (2 * gap (half_even a d * d) a ≤ d)
      × (2 * gap (half_even a d * d) a ≡ d → half_even a d % 2 ≡ 0)
unfolding half_even
half_even-gap a d h =
    let e : a / d * d + a % d ≡ a = grind arith in
    rw e at (round_up-gap (a / d) (a % d) d (grind arith))

gap_pos : (x a d : ℕ) → nat_abs (pos x *ℤ pos d -ℤ pos a) ≡ gap (x * d) a
unfolding gap ◌*ℤ◌ ◌-ℤ◌
gap_pos x a d = ground arith

gap_neg : (x a d : ℕ) → nat_abs (neg_ℕ x *ℤ pos d -ℤ negsuc a) ≡ gap (x * d) (suc a)
unfolding gap ◌*ℤ◌ ◌-ℤ◌
gap_neg zero a d = ground arith
gap_neg (suc x) a d = ground arith

nat_abs-neg_ℕ : (x : ℕ) → nat_abs (neg_ℕ x) ≡ x
nat_abs-neg_ℕ x = ground arith

lt_of_mul-lt : (q b d : ℕ) → q * d < b * d → q < b
lt_of_mul-lt q b d h = elim (dec_lt q b) [
  | yes p ↦ p
  | no p ↦ absurd (let e : b * d ≤ q * d = grind arith in omega arith)
]

round_up-le : (q r b d : ℕ) → q * d + r ≤ b * d → r < d → round_up q r d ≤ b
unfolding round_up
round_up-le q r b d h hr = ground (arith, lt_of_mul-lt q b d, lt_of_mul-lt q (b + 1) d)

pub half_even-le : (a b d : ℕ) → a ≤ b * d → 0 < d → half_even a d ≤ b
unfolding half_even
half_even-le a b d h hd =
    let e : a / d * d + a % d ≡ a = grind arith in
    round_up-le (a / d) (a % d) b d (omega arith) (grind arith)

small_quotient : (a d : ℕ) → 0 < d → a ≤ 2 ^ 63 → 0 < a % d → a / d < 2 ^ 62
small_quotient a d hd ha hr =
    let e : a / d * d + a % d ≡ a = grind arith in
    let two : 2 ≤ d = grind arith in let e' : a / d * 2 ≤ a / d * d = grind arith in omega arith

quotient-le : (a d : ℕ) → a / d ≤ a
quotient-le a d = grind arith

abbrev pub rounded : ℤ → ℕ → ℤ
rounded (pos a) d = pos (half_even a d)
rounded (negsuc a) d = neg_ℕ (half_even (suc a) d)

div64_pos : (a d : ℕ) → a < 2 ^ 63 → div64 (pos a) (pos d) ≡ pos (a / d)
unfolding div64 wrap64 quot
div64_pos a d h = ground (arith, quotient-le a d)

div64_neg : (a d : ℕ) → suc a ≤ 2 ^ 63 → div64 (negsuc a) (pos d) ≡ neg_ℕ (suc a / d)
unfolding div64 quot
div64_neg a d h = wrap64-eq (neg_ℕ (suc a / d)) (ground (arith, quotient-le (suc a) d))

rounding :
    (s : ℤ) (d : ℕ)
    → InRange s
    → 0 < d
    → d ≤ 2 ^ 62
    → round_half_even (div64 s (pos d)) (rem s (pos d)) (pos d) ≡ rounded s d
unfolding half_even rem
rounding (pos a) d hs hd ub = rw (div64_pos a d hs.0) (
    round_half_even_pos (a / d) (a % d) d (grind arith) ub (omega (arith, quotient-le a d, hs.0))
      (small_quotient a d hd (omega (arith, hs.0))))
rounding (negsuc a) d hs hd ub = rw (div64_neg a d hs.1) (
    round_half_even_neg (suc a / d) (suc a % d) d (grind arith) ub
      (small_quotient (suc a) d hd hs.1))

rounded-IsNearest : (s : ℤ) (d : ℕ) → 0 < d → IsNearest (rounded s d) s d
rounded-IsNearest (pos a) d h = rw (gap_pos (half_even a d) a d) (half_even-gap a d h)
rounded-IsNearest (negsuc a) d h =
    rw (gap_neg (half_even (suc a) d) a d, nat_abs-neg_ℕ (half_even (suc a) d))
      (half_even-gap (suc a) d h)

pub percent_rounded :
    (k n : Kobo) (d : ℕ)
    → InRange k
    → InRange n
    → InRange (k *ℤ n)
    → 0 < d
    → d ≤ 2 ^ 62
    → percent k n (pos d) ≡ ok (rounded (k *ℤ n) d)
unfolding percent
percent_rounded k n d hk hn hp hd ub =
    ground (arith, mul_int-ok k n hk hn hp, rounding (k *ℤ n) d hp hd ub)

-- Percent returns a nearest int64 value to k * numerator / denominator, and the even one of two
-- that are as near, whenever k, the numerator and their product are int64 values and the
-- denominator lies between 1 and 2 ^ 62.
pub percent-IsNearest :
    (k n : Kobo) (d : ℕ)
    → InRange k
    → InRange n
    → InRange (k *ℤ n)
    → 0 < d
    → d ≤ 2 ^ 62
    → (q : Kobo) × (percent k n (pos d) ≡ ok q) × IsNearest q (k *ℤ n) d
percent-IsNearest k n d hk hn hp hd ub =
    (rounded (k *ℤ n) d, percent_rounded k n d hk hn hp hd ub, rounded-IsNearest (k *ℤ n) d hd)

-- A share of at most the whole of an amount that is not negative lies between zero and the amount.
pub percent_share :
    (a n d : ℕ)
    → a < 2 ^ 63
    → n < 2 ^ 63
    → a * n < 2 ^ 63
    → n ≤ d
    → 0 < d
    → d ≤ 2 ^ 62
    → (q : ℕ) × (percent (pos a) (pos n) (pos d) ≡ ok (pos q)) × (q ≤ a)
unfolding ◌*ℤ◌
percent_share a n d ha hn hp h hd ub = (
  half_even (a * n) d,
  percent_rounded (pos a) (pos n) d (ha, omega arith) (hn, omega arith) (hp, omega arith) hd ub,
  half_even-le (a * n) a d (grind arith) hd,
)
