-- ===== src/Domain/Points.antt =====
-- What a charge and a use of points do to the balance (src/domain/entities/user.entity.ts).
use hanghae_plus_backend.Prelude.{◌≡◌, ◌↔◌, ◌⊎◌, arith}
use hanghae_plus_backend.Prelude.Int.{ℤ, pos, ◌+ℤ◌, ◌-ℤ◌, ◌≤ℤ◌}
use hanghae_plus_backend.Failure.{ok, ◌>>=◌}
use hanghae_plus_backend.Domain.User.{User, charge_points, use_points}

-- A use of points succeeds exactly when the amount is not negative and the balance covers it; the
-- balance falls by the amount then.
pub use_points-eq-ok :
    (u : User) (amount : ℤ)
    → (use_points u amount ≡ ok (record u { points = u.points -ℤ amount }))
      ↔ ((pos 0 ≤ℤ amount) × (amount ≤ℤ u.points))
unfolding use_points
use_points-eq-ok u amount = ground arith

-- A balance that is not negative stays so, whichever of the two methods succeeds.
pub points-nonneg :
    (u : User) (amount : ℤ) {v : User}
    → pos 0 ≤ℤ u.points
    → (charge_points u amount ≡ ok v) ⊎ (use_points u amount ≡ ok v)
    → pos 0 ≤ℤ v.points
unfolding charge_points use_points ◌+ℤ◌ ◌-ℤ◌
points-nonneg u amount h e = ground arith

-- What was charged can be used, and the user is then as before.
pub use_points-charge_points :
    (u : User) (amount : ℤ)
    → pos 0 ≤ℤ u.points
    → pos 0 ≤ℤ amount
    → (charge_points u amount >>= λ v. use_points v amount) ≡ ok u
unfolding charge_points use_points ◌+ℤ◌ ◌-ℤ◌
use_points-charge_points u amount h k = ground arith
