-- ===== src/Validation/User.antt =====
-- src/domain/services/user-validation.service.ts
use hanghae_plus_backend.Prelude.{not, Option, none, some}
use hanghae_plus_backend.Prelude.Int.{ℤ, pos, ltb_ℤ}
use hanghae_plus_backend.Failure.{
  Check, Result, ok, err, plain, throw_if, ◌>>◌, ◌>>=◌, charge_too_small, charge_too_large,
  use_too_small, user_missing, insufficient_points,
}
use hanghae_plus_backend.Domain.User.{User, has_enough_points}

unfoldable pub validate_charge_amount : ℤ → Check
validate_charge_amount amount = do
  throw_if (ltb_ℤ amount (pos 1000)) charge_too_small
  throw_if (ltb_ℤ (pos 1000000) amount) charge_too_large

unfoldable pub validate_use_amount : ℤ → Check
validate_use_amount amount = throw_if (ltb_ℤ amount (pos 1000)) use_too_small

-- `user!` after this check is the user that it found.
unfoldable pub validate_user_exists : Option User → Result User
validate_user_exists none = err (plain user_missing)
validate_user_exists (some u) = ok u

unfoldable pub validate_user_points : User → ℤ → Check
unfolding has_enough_points
validate_user_points u amount = throw_if (not (has_enough_points u amount)) insufficient_points

unfoldable pub validate_charge_points : Option User → ℤ → Check
unfolding validate_user_exists validate_charge_amount
validate_charge_points user amount = do u ← validate_user_exists user; validate_charge_amount amount

unfoldable pub validate_use_points : Option User → ℤ → Check
unfolding validate_user_exists validate_use_amount validate_user_points
validate_use_points user amount = do
  u ← validate_user_exists user
  validate_use_amount amount
  validate_user_points u amount
