-- ===== src/Validation/Coupon.antt =====
-- src/domain/services/coupon-validation.service.ts. A coupon type is the text of the request;
-- names that JavaScript finds on every object (`toString`, …) are not among the texts considered.
use hanghae_plus_backend.Prelude.{
  ℕ, ◌-◌, String, Bool, false, not, ◌||◌, Option, none, some, List, ltb, leb, if◌then◌else◌, str_eq,
  length,
}
use hanghae_plus_backend.Prelude.Int.{ℤ, pos, ltb_ℤ}
use hanghae_plus_backend.Failure.{
  Check, err, plain, throw_if, ◌>>◌, invalid_coupon_type, unknown_coupon_type, coupon_sold_out,
  invalid_coupon, used_coupon, expired_coupon, negative_discount, discount_over_total,
}
use hanghae_plus_backend.Domain.Coupon.{Coupon, is_valid, is_expired, calculate_discount}

-- `COUPON_LIMITS[couponType]`
unfoldable pub coupon_limits : String → Option ℕ
coupon_limits t =
    if str_eq t "DISCOUNT_10PERCENT"
    then some 100
    else if str_eq t "DISCOUNT_20PERCENT"
    then some 50
    else if str_eq t "FIXED_1000"
    then some 200
    else if str_eq t "FIXED_2000"
    then some 100
    else none

unfoldable pub validate_coupon_type : String → Check
validate_coupon_type t =
    throw_if
      (not (
        str_eq t "DISCOUNT_10PERCENT"
        || str_eq t "DISCOUNT_20PERCENT"
        || str_eq t "FIXED_1000"
        || str_eq t "FIXED_2000"))
      (invalid_coupon_type t)

unfoldable pub validate_coupon_availability : String → List Coupon → Check
unfolding coupon_limits
validate_coupon_availability t existing = elim (coupon_limits t) [
  | none ↦ err (plain (unknown_coupon_type t))
  | some limit ↦ throw_if (leb limit (length existing)) (coupon_sold_out t)
]

unfoldable pub validate_coupon_validity : ℕ → Coupon → Check
unfolding is_valid
validate_coupon_validity now c = throw_if (not (is_valid now c)) invalid_coupon

unfoldable pub validate_coupon_usage : ℕ → Coupon → Check
unfolding is_expired
validate_coupon_usage now c = do
  throw_if c.is_used used_coupon
  throw_if (is_expired now c) expired_coupon

unfoldable pub validate_discount_calculation : ℕ → Coupon → ℤ → Check
unfolding calculate_discount
validate_discount_calculation now c total_amount = do
  throw_if (ltb_ℤ (calculate_discount now c total_amount) (pos 0)) negative_discount
  throw_if (ltb_ℤ total_amount (calculate_discount now c total_amount)) discount_over_total

unfoldable pub validate_coupon_issuance : String → List Coupon → Check
unfolding validate_coupon_type validate_coupon_availability
validate_coupon_issuance t existing = do
  validate_coupon_type t
  validate_coupon_availability t existing

unfoldable pub validate_coupon_usage_for_order : ℕ → Coupon → ℤ → Check
unfolding validate_coupon_validity validate_coupon_usage validate_discount_calculation
validate_coupon_usage_for_order now c total_amount = do
  validate_coupon_validity now c
  validate_coupon_usage now c
  validate_discount_calculation now c total_amount

unfoldable pub can_issue_coupon : String → List Coupon → Bool
unfolding coupon_limits
can_issue_coupon t existing = elim (coupon_limits t) [
  | none ↦ false
  | some limit ↦ ltb (length existing) limit
]

-- `Math.max(0, limit - existingCoupons.length)`: subtraction on ℕ stops at 0.
unfoldable pub get_remaining_coupon_count : String → List Coupon → ℕ
unfolding coupon_limits
get_remaining_coupon_count t existing = elim (coupon_limits t) [
  | none ↦ 0
  | some limit ↦ limit - length existing
]

unfoldable pub get_coupon_limit : String → ℕ
unfolding coupon_limits
get_coupon_limit t = elim (coupon_limits t) [ none ↦ 0 | some limit ↦ limit ]
