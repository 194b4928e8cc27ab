-- ===== src/Base/Int64.antt =====
-- Go's int64: an integer in a range, with operations that wrap around modulo 2 ^ 64.
use Prim.Native.Nat.{ℕ, ◌-◌, ◌%◌, ◌^◌, ◌≤◌, ◌<◌}
use mathlib.Core.Path.{◌≡◌}
use mathlib.Core.Bool.{Bool, ◌&&◌}
use native.Mathlib.Omega.{arith}
use gopayrollengine.Base.Tests.{ltb, leb, if◌then◌else◌}
use gopayrollengine.Base.Int.{ℤ, pos, negsuc, pos_part, neg_part, ◌+ℤ◌, ◌-ℤ◌, ◌*ℤ◌, quot}

abbrev pub max_int64 : ℤ
max_int64 = pos 9223372036854775807

abbrev pub min_int64 : ℤ
min_int64 = negsuc 9223372036854775807

abbrev pub InRange : ℤ → Type 0
InRange z = (pos_part z < 2 ^ 63) × (neg_part z ≤ 2 ^ 63)

abbrev pub in_range : ℤ → Bool
in_range z = ltb (pos_part z) (2 ^ 63) && leb (neg_part z) (2 ^ 63)

-- The signed reading of a bit pattern.
abbrev signed : ℕ → ℤ
signed u = if ltb u (2 ^ 63) then pos u else negsuc (2 ^ 64 - 1 - u)

unfoldable pub wrap64 : ℤ → ℤ
wrap64 (pos n) = signed (n % 2 ^ 64)
wrap64 (negsuc n) = signed (2 ^ 64 - 1 - n % 2 ^ 64)

unfoldable pub add64 : ℤ → ℤ → ℤ
add64 a b = wrap64 (a +ℤ b)

unfoldable pub sub64 : ℤ → ℤ → ℤ
sub64 a b = wrap64 (a -ℤ b)

unfoldable pub mul64 : ℤ → ℤ → ℤ
mul64 a b = wrap64 (a *ℤ b)

-- `/`: the smallest value divided by -1 wraps to itself.
unfoldable pub div64 : ℤ → ℤ → ℤ
div64 a b = wrap64 (quot a b)

pub wrap64-InRange : (z : ℤ) → InRange (wrap64 z)
unfolding wrap64
wrap64-InRange z = ground arith

pub wrap64-eq : (z : ℤ) → InRange z → wrap64 z ≡ z
unfolding wrap64
wrap64-eq z h = ground arith
