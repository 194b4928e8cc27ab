-- ===== src/Request/Limits.antt =====
-- What bounds a draw (internal/services/ewa_service.go).
use gopayrollengine.Base.{ℕ, ◌≡◌, ◌-◌, none, arith, if◌then◌else◌, ◌<◌, ◌^◌}
use gopayrollengine.Base.Int.{pos, ◌+ℤ◌, ◌-ℤ◌, ◌≤ℤ◌, ◌<ℤ◌, leb_ℤ}
use gopayrollengine.Money.{Kobo}
use gopayrollengine.Money.Add.{sub-exact}
use gopayrollengine.Request.{less_or_zero, under_floor, Eligibility, decide}

-- For amounts that are not negative, the difference cut off at zero.
less_or_zero-exact :
    (a b : ℕ)
    → a < 2 ^ 63
    → b < 2 ^ 63
    → less_or_zero (pos a) (pos b) ≡ (if leb_ℤ (pos b) (pos a) then pos a -ℤ pos b else pos 0)
unfolding less_or_zero ◌-ℤ◌
less_or_zero-exact a b ha hb =
    ground (arith, sub-exact (pos a) (pos b) (ha, omega arith) (hb, omega arith))

-- What is available under a worker's own floor never exceeds what is available without it, and
-- whenever it is more than zero, drawing all of it leaves the floor and what is outstanding
-- within the earnings of the period. None of the amounts is negative, the floor is set, and the earnings, the
-- floor and what is outstanding are int64 values.
pub under_floor-protects :
    (basis protected outstanding available : ℕ)
    → basis < 2 ^ 63
    → protected < 2 ^ 63
    → outstanding < 2 ^ 63
    → 0 < protected
    → let a = under_floor (pos basis) (pos protected) (pos outstanding) (pos available) in
      (a ≤ℤ pos available) × (pos 0 <ℤ a → a +ℤ pos protected +ℤ pos outstanding ≤ℤ pos basis)
unfolding under_floor ◌+ℤ◌ ◌-ℤ◌
under_floor-protects basis protected outstanding available hb hp ho set =
    let gap : ℕ = basis - protected in
    ground (
      arith,
      less_or_zero-exact basis protected hb hp,
      less_or_zero-exact gap outstanding (omega arith) ho,
    )

-- A request is approved exactly when nothing blocks the worker and the amount lies between the
-- minimum draw and what is available.
pub decide-approves :
    (el : Eligibility) (amount : Kobo)
    → (decide el amount ≡ none
        → (el.blocked ≡ none) × (el.minimum_draw ≤ℤ amount) × (amount ≤ℤ el.available))
      × (el.blocked ≡ none
          → el.minimum_draw ≤ℤ amount
          → amount ≤ℤ el.available
          → decide el amount ≡ none)
unfolding decide
decide-approves el amount = ground arith
