-- ===== src/Money/Mul.antt =====
-- MulInt of pkg/money/money.go, and its overflow test.
use gopayrollengine.Base.{
  ◌≡◌, ◌≢◌, ◌⊎◌, inl, inr, ℕ, suc, ◌+◌, ◌-◌, ◌*◌, ◌/◌, ◌%◌, ◌^◌, ◌<◌, ◌≤◌, if◌then◌else◌, arith,
  refl, ap, ℕ_discrete,
}
use gopayrollengine.Base.Int.{ℤ, pos, negsuc, ◌*ℤ◌, quot}
use gopayrollengine.Base.Int64.{InRange, in_range, wrap64, mul64, div64, min_int64}
use gopayrollengine.Base.Result.{ok, err, overflow}
use gopayrollengine.Money.{Kobo, mul_int}

mul-div-le : (u b a : ℕ) → u / b ≡ a → a * b ≤ u
mul-div-le u b a h = grind arith

div-mul_self : (a b : ℕ) → 0 < b → a * b / b ≡ a
div-mul_self a b h = grind arith

mul_int_pos_pos :
    (a b : ℕ)
    → InRange (pos a)
    → InRange (pos b)
    → mul_int (pos a) (pos b)
      ≡ (if in_range (pos a *ℤ pos b) then ok (pos a *ℤ pos b) else err overflow)
unfolding mul_int mul64 div64 wrap64 ◌*ℤ◌ quot
mul_int_pos_pos a b ha hb = ground (arith, mul-div-le (a * b % 2 ^ 64) b a, div-mul_self a b)

mul_int_pos_neg :
    (a b : ℕ)
    → InRange (pos a)
    → InRange (negsuc b)
    → mul_int (pos a) (negsuc b)
      ≡ (if in_range (pos a *ℤ negsuc b) then ok (pos a *ℤ negsuc b) else err overflow)
unfolding mul_int mul64 div64 wrap64 ◌*ℤ◌ quot
mul_int_pos_neg a b ha hb =
    ground (arith, mul-div-le (a * suc b % 2 ^ 64) (suc b) a, div-mul_self a (suc b))

mul_int_neg_pos :
    (a b : ℕ)
    → InRange (negsuc a)
    → InRange (pos b)
    → mul_int (negsuc a) (pos b)
      ≡ (if in_range (negsuc a *ℤ pos b) then ok (negsuc a *ℤ pos b) else err overflow)
unfolding mul_int mul64 div64 wrap64 ◌*ℤ◌ quot
mul_int_neg_pos a b ha hb =
    ground (arith, mul-div-le ((suc a * b - 1) % 2 ^ 64 + 1) b (suc a), div-mul_self (suc a) b)

mul_int_neg_neg :
    (a b : ℕ)
    → InRange (negsuc a)
    → InRange (negsuc b)
    → (a ≢ 2 ^ 63 - 1) ⊎ (b ≢ 0)
    → mul_int (negsuc a) (negsuc b)
      ≡ (if in_range (negsuc a *ℤ negsuc b) then ok (negsuc a *ℤ negsuc b) else err overflow)
unfolding mul_int mul64 div64 wrap64 ◌*ℤ◌ quot
mul_int_neg_neg a b ha hb h = ground (
  arith,
  mul-div-le (suc a * suc b % 2 ^ 64) (suc b) (suc a),
  div-mul_self (suc a) (suc b),
  mul-div-le (2 ^ 64 - suc a * suc b % 2 ^ 64) (suc b) (suc a),
)

-- The one case that MulInt misses is the smallest value times -1.
abbrev pub WrapsBack : ℤ → ℤ → Type 0
WrapsBack k n = (k ≡ min_int64) × (n ≡ negsuc 0)

-- For two int64 values, other than the smallest value times -1, MulInt returns their product
-- when that is an int64 value, and ErrOverflow when it is not.
pub mul_int-exact :
    (k n : Kobo)
    → InRange k
    → InRange n
    → ¬ WrapsBack k n
    → mul_int k n ≡ (if in_range (k *ℤ n) then ok (k *ℤ n) else err overflow)
mul_int-exact (pos a) (pos b) hk hn h = mul_int_pos_pos a b hk hn
mul_int-exact (pos a) (negsuc b) hk hn h = mul_int_pos_neg a b hk hn
mul_int-exact (negsuc a) (pos b) hk hn h = mul_int_neg_pos a b hk hn
mul_int-exact (negsuc a) (negsuc b) hk hn h = elim (ℕ_discrete b 0) [
  | yes e ↦ mul_int_neg_neg a b hk hn (inl (λ e'. h (ap negsuc e', ap negsuc e)))
  | no ne ↦ mul_int_neg_neg a b hk hn (inr ne)
]

WrapsBack-overflows : (k n : ℤ) → WrapsBack k n → ¬ InRange (k *ℤ n)
unfolding ◌*ℤ◌
WrapsBack-overflows k n (e, e') = rw (e, e') (omega arith)

-- A product that is an int64 value is returned.
pub mul_int-ok : (k n : Kobo) → InRange k → InRange n → InRange (k *ℤ n) → mul_int k n ≡ ok (k *ℤ n)
mul_int-ok k n hk hn hp =
    ground (arith, mul_int-exact k n hk hn (λ w. WrapsBack-overflows k n w hp))

-- The smallest value times -1 is returned as itself, with no error.
mul_int-wraps : mul_int min_int64 (negsuc 0) ≡ ok min_int64
unfolding mul_int mul64 div64 wrap64 ◌*ℤ◌ quot
mul_int-wraps = refl
