-- ===== src/Validation/Points.antt =====
-- Validation and method of a use of points, side by side.
use hanghae_plus_backend.Prelude.{◌≡◌, ◌↔◌, some, arith, eq_iff}
use hanghae_plus_backend.Prelude.Int.{ℤ, pos, ◌-ℤ◌, ◌≤ℤ◌}
use hanghae_plus_backend.Failure.{ok}
use hanghae_plus_backend.Domain.User.{User, use_points}
use hanghae_plus_backend.Domain.Order.{Order}
use hanghae_plus_backend.Validation.User.{validate_use_points}
use hanghae_plus_backend.Validation.Payment.{validate_payment_possible}

-- The validation of a use of points passes exactly for at least 1,000 points and a balance that
-- covers them.
pub validate_use_points-eq-ok :
    (u : User) (amount : ℤ)
    → (validate_use_points (some u) amount ≡ ok tt) ↔ ((pos 1000 ≤ℤ amount) × (amount ≤ℤ u.points))
unfolding validate_use_points
validate_use_points-eq-ok u amount = ground arith

-- Where the validation passes, the method of the entity takes the amount off the points.
pub use_points-validated :
    (u : User) (amount : ℤ)
    → validate_use_points (some u) amount ≡ ok tt
    → use_points u amount ≡ ok (record u { points = u.points -ℤ amount })
unfolding validate_use_points use_points
use_points-validated u amount h = ground arith

-- An order is payable exactly when it is pending and the user's points cover its final amount.
pub validate_payment_possible-eq-ok :
    (o : Order) (u : User)
    → (validate_payment_possible o u ≡ ok tt)
      ↔ ((o.status ≡ "PENDING") × (o.final_amount ≤ℤ u.points))
unfolding validate_payment_possible
validate_payment_possible-eq-ok o u = ground (arith, eq_iff o.status "PENDING")
