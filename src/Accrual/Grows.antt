-- ===== src/Accrual/Grows.antt =====
-- The accrual of a salary over a period (AccruedToDate of internal/services/ewa_service.go).
use gopayrollengine.Base.{
  ℕ, ◌≡◌, ◌-◌, ◌*◌, ◌+◌, ◌%◌, ◌≤◌, ◌<◌, ◌^◌, arith, dec_lt, ltb, ◌==◌, if◌then◌else◌, not, Bool,
}
use gopayrollengine.Base.Int.{ℤ, pos, ltb_ℤ}
use gopayrollengine.Base.Result.{Result, ok}
use gopayrollengine.Money.{percent}
use gopayrollengine.Accrual.{working_days_between, accrued_in}
use gopayrollengine.Accrual.Days.{working_days_between_mono, working_days_between-le}
use gopayrollengine.Accrual.Share.{percent_grows}

-- The branches, from the counts of working days and the tests of the day.
abbrev branches : ℕ → ℕ → ℕ → Bool → Bool → Result ℤ
branches a total elapsed early running =
    if not (ltb_ℤ (pos 0) (pos a))
    then ok (pos 0)
    else if total == 0
    then ok (pos 0)
    else if early
    then ok (pos 0)
    else if not running
    then ok (pos a)
    else if elapsed == 0
    then ok (pos 0)
    else percent (pos a) (pos elapsed) (pos total)

-- One day's accrual is an amount of at most the whole.
branches-within :
    (a n d start end y : ℕ)
    → a < 2 ^ 63
    → d ≤ 2 ^ 62
    → a * d < 2 ^ 63
    → (start ≤ y → y < end → n ≤ d)
    → (r : ℕ) × (branches a d n (ltb y start) (ltb y end) ≡ ok (pos r)) × (r ≤ a)
branches-within a n d start end y ha hd hp hn = elim (dec_lt 0 d) [
  | no z ↦ (0, ground arith, omega arith)
  | yes z ↦ elim (dec_lt y start) [
    | yes early ↦ (0, ground arith, omega arith)
    | no p ↦ elim (dec_lt y end) [ no late ↦ (a, ground arith, omega arith) | yes q ↦ shared z p q ]
  ]
]
  where
    shared :
        0 < d
        → ¬ (y < start)
        → y < end
        → (r : ℕ) × (branches a d n (ltb y start) (ltb y end) ≡ ok (pos r)) × (r ≤ a)
    shared z p q =
        let fits = hn (omega arith) q in
        let small : a * n ≤ a * d = grind arith in
        let (_, r, _, e, _, le) =
          percent_grows a 0 n d ha (omega arith) (omega arith) (omega arith) fits z hd in
        elim (dec_lt 0 n) [ yes h ↦ (r, ground arith, le) | no h ↦ (0, ground arith, omega arith) ]

branches-grow :
    (a m n d start end x y : ℕ)
    → start ≤ end
    → a < 2 ^ 63
    → d ≤ 2 ^ 62
    → a * d < 2 ^ 63
    → x ≤ y
    → (start ≤ x → y < end → (m ≤ n) × (n ≤ d))
    → (start ≤ y → y < end → n ≤ d)
    → (start ≤ x → x < end → m ≤ d)
    → (q r : ℕ) × (branches a d m (ltb x start) (ltb x end) ≡ ok (pos q))
      × (branches a d n (ltb y start) (ltb y end) ≡ ok (pos r))
      × (q ≤ r)
      × (r ≤ a)
branches-grow a m n d start end x y hs ha hd hp hxy mono hn hm = elim (dec_lt x start) [
  | yes p ↦
      let (r, e, le) = branches-within a n d start end y ha hd hp hn in
      (0, r, ground arith, e, omega arith, le)
  | no p ↦ elim (dec_lt y end) [
    | yes q ↦ elim (dec_lt 0 d) [
      | yes z ↦ middle z p q
      | no z ↦ (0, 0, ground arith, ground arith, omega arith, omega arith)
    ]
    | no q ↦
        let (r, e, le) = branches-within a m d start end x ha hd hp hm in
        elim (dec_lt 0 d) [
          | yes z ↦ (r, a, e, ground arith, le, omega arith)
          | no z ↦ (0, 0, ground arith, ground arith, omega arith, omega arith)
        ]
  ]
]
  where
    middle :
        0 < d
        → ¬ (x < start)
        → y < end
        → (q r : ℕ) × (branches a d m (ltb x start) (ltb x end) ≡ ok (pos q))
          × (branches a d n (ltb y start) (ltb y end) ≡ ok (pos r))
          × (q ≤ r)
          × (r ≤ a)
    middle z p q =
        let (le1, le2) = mono (omega arith) q in
        let small : a * n ≤ a * d = grind arith in
        let (q', r, e', e, le, le') =
          percent_grows a m n d ha (omega arith) (omega arith) le1 le2 z hd in
        let (r2, e2, l2) = branches-within a n d start end y ha hd hp hn in
        elim (dec_lt 0 m) [
          | yes h ↦ (q', r, ground arith, ground arith, le, le')
          | no h ↦ (0, r2, ground arith, e2, omega arith, l2)
        ]

-- Take a calendar in which the weekdays follow one another, a period of at most 2 ^ 62 days, and
-- a salary that is not negative and whose product with the days of the period is an int64 value.
-- On any day, AccruedToDate gives an amount between zero and the salary, and on a later day no
-- less.
pub accrued_in-grows :
    (weekday : ℕ → ℕ) (shift : ℕ)
    → ((d : ℕ) → weekday d ≡ (d + shift) % 7)
    → (salary start end x y : ℕ) → start < end
    → salary * (end - start) < 2 ^ 63
    → end - start ≤ 2 ^ 62
    → x ≤ y
    → (q r : ℕ) × (accrued_in weekday (pos salary) start end x ≡ ok (pos q))
      × (accrued_in weekday (pos salary) start end y ≡ ok (pos r))
      × (q ≤ r)
      × (r ≤ salary)
unfolding accrued_in
accrued_in-grows weekday shift cycle a start end x y hs hp hd hxy =
    let bound = working_days_between-le weekday shift cycle start end (omega arith) in
    let mono = working_days_between_mono weekday shift cycle start in
    let d = working_days_between weekday start end in
    let one : a ≤ a * (end - start) = grind arith in
    let fewer : a * d ≤ a * (end - start) = grind arith in
    branches-grow a (working_days_between weekday start x) (working_days_between weekday start y) d
      start end x y (omega arith) (omega arith) (omega arith) (omega arith) hxy
      (λ p q. (mono x y p hxy, mono y end (omega arith) (omega arith)))
      (λ p q. mono y end p (omega arith)) (λ p q. mono x end p (omega arith))
