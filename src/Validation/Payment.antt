-- ===== src/Validation/Payment.antt =====
-- src/domain/services/payment-validation.service.ts
use hanghae_plus_backend.Prelude.{not, Option, none, some, str_eq}
use hanghae_plus_backend.Prelude.Int.{pos, ltb_ℤ, leb_ℤ}
use hanghae_plus_backend.Failure.{
  Check, Result, ok, err, plain, throw_if, ◌>>◌, ◌>>=◌, order_missing, user_missing,
  order_processed, insufficient_points, zero_payment, final_over_total, payment_processed,
}
use hanghae_plus_backend.Domain.Order.{Order}
use hanghae_plus_backend.Domain.User.{User, has_enough_points}
use hanghae_plus_backend.Domain.Payment.{Payment}

-- `order!` and `user!` after these checks are what they found.
unfoldable pub validate_order_exists : Option Order → Result Order
validate_order_exists none = err (plain order_missing)
validate_order_exists (some o) = ok o

unfoldable pub validate_user_exists : Option User → Result User
validate_user_exists none = err (plain user_missing)
validate_user_exists (some u) = ok u

unfoldable pub validate_payment_possible : Order → User → Check
unfolding has_enough_points
validate_payment_possible o u = do
  throw_if (not (str_eq o.status "PENDING")) order_processed
  throw_if (not (has_enough_points u o.final_amount)) insufficient_points

unfoldable pub validate_payment_amount : Payment → Check
validate_payment_amount p = do
  throw_if (leb_ℤ p.final_amount (pos 0)) zero_payment
  throw_if (ltb_ℤ p.total_amount p.final_amount) final_over_total

unfoldable pub validate_payment_status : Payment → Check
validate_payment_status p = throw_if (not (str_eq p.status "PENDING")) payment_processed

unfoldable pub validate_payment : Option Order → Option User → Payment → Check
unfolding validate_order_exists validate_user_exists validate_payment_possible
    validate_payment_amount validate_payment_status
validate_payment order user payment = do
  o ← validate_order_exists order
  u ← validate_user_exists user
  validate_payment_possible o u
  validate_payment_amount payment
  validate_payment_status payment
