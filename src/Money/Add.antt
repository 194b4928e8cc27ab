-- ===== src/Money/Add.antt =====
-- Add, Sub and Sum of pkg/money/money.go, and their overflow tests.
use gopayrollengine.Base.{◌≡◌, List, [], ◌∷◌, ap, ◌∙◌, if◌then◌else◌, arith}
use gopayrollengine.Base.Int.{ℤ, pos, ◌≤ℤ◌, ◌+ℤ◌, ◌-ℤ◌, pos_part, neg_part, one_sided, int_laws}
use gopayrollengine.Base.Lists.{All}
use gopayrollengine.Base.Int64.{InRange, in_range, wrap64, add64, sub64}
use gopayrollengine.Base.Result.{ok, err, overflow, ok-injective, >>=-eq-ok}
use gopayrollengine.Money.{Kobo, add, sub, sum, sum_from}

-- For two int64 values, Add returns their sum if it is an int64 value, else ErrOverflow.
pub add-exact :
    (k other : Kobo)
    → InRange k
    → InRange other
    → add k other ≡ (if in_range (k +ℤ other) then ok (k +ℤ other) else err overflow)
unfolding add add64 wrap64 ◌+ℤ◌
add-exact k other hk ho = ground arith

pub sub-exact :
    (k other : Kobo)
    → InRange k
    → InRange other
    → sub k other ≡ (if in_range (k -ℤ other) then ok (k -ℤ other) else err overflow)
unfolding sub sub64 wrap64 ◌-ℤ◌
sub-exact k other hk ho = ground arith

-- The sum of integers of any size.
abbrev pub total : List Kobo → ℤ
total [] = pos 0
total (v ∷ values) = v +ℤ total values

total_nonneg : (values : List Kobo) → All (λ v. pos 0 ≤ℤ v) values → pos 0 ≤ℤ total values
total_nonneg [] h = omega arith
total_nonneg (v ∷ values) h = omega (int_laws, total_nonneg values h.1, h.0)

-- One step of Sum: on success the next total is the exact sum, and an int64 value.
pub add-ok :
    (k other : Kobo) {r : Kobo}
    → InRange k
    → InRange other
    → add k other ≡ ok r
    → (r ≡ k +ℤ other) × InRange r
add-ok k other hk ho h = ground (arith, add-exact k other hk ho)

pub sub-ok :
    (k other : Kobo) {r : Kobo}
    → InRange k
    → InRange other
    → sub k other ≡ ok r
    → (r ≡ k -ℤ other) × InRange r
sub-ok k other hk ho h = ground (arith, sub-exact k other hk ho)

sum_from-total :
    (acc : Kobo) (values : List Kobo) {t : Kobo}
    → InRange acc
    → All InRange values
    → sum_from acc values ≡ ok t
    → (t ≡ acc +ℤ total values) × InRange t
unfolding sum_from
sum_from-total acc [] ha hv h = rw (← ok-injective h) (omega int_laws, ha)
sum_from-total acc (v ∷ values) ha hv h =
    let (next, e, rest) = >>=-eq-ok (add acc v) (λ next. sum_from next values) h in
    let (e', inside) = add-ok acc v ha hv.0 e in
    let (sum_e, sum_in) = sum_from-total next values inside hv.1 rest in
    (rw sum_e (omega (int_laws, ap pos_part e', ap neg_part e')), sum_in)

-- A total that Sum returns is the exact sum of the values, and an int64 value.
pub sum-total :
    (values : List Kobo) {t : Kobo}
    → All InRange values
    → sum values ≡ ok t
    → (t ≡ total values) × InRange t
unfolding sum
sum-total values hv h =
    let (e, inside) = sum_from-total (pos 0) values (omega arith, omega arith) hv h in
    (rw e (omega int_laws), inside)

-- The sum of values that are not negative.
sum_from-fits :
    (acc : Kobo) (values : List Kobo)
    → InRange acc
    → All InRange values
    → pos 0 ≤ℤ acc
    → All (λ v. pos 0 ≤ℤ v) values
    → InRange (acc +ℤ total values)
    → sum_from acc values ≡ ok (acc +ℤ total values)
unfolding sum_from
sum_from-fits acc [] ha hv na nv h = ap ok (omega int_laws)
sum_from-fits acc (v ∷ values) ha hv na nv h =
    let tail_nonneg = total_nonneg values nv.1 in
    let fits : InRange (acc +ℤ v) = omega (int_laws, one_sided (acc +ℤ v), tail_nonneg, nv.0) in
    let e : add acc v ≡ ok (acc +ℤ v) = ground (arith, add-exact acc v ha hv.0, fits) in
    let same : acc +ℤ v +ℤ total values ≡ acc +ℤ (v +ℤ total values) = omega int_laws in
    rw e (sum_from-fits (acc +ℤ v) values fits hv.1 (omega int_laws) nv.1 (rw same h) ∙ ap ok same)

-- Sum never refuses values that are not negative and whose exact sum is an int64 value.
sum-fits :
    (values : List Kobo)
    → All InRange values
    → All (λ v. pos 0 ≤ℤ v) values
    → InRange (total values)
    → sum values ≡ ok (total values)
unfolding sum
sum-fits values hv nv h =
    let same : pos 0 +ℤ total values ≡ total values = omega int_laws in
    sum_from-fits (pos 0) values (omega arith, omega arith) hv (omega arith) nv (rw same h)
    ∙ ap ok same
