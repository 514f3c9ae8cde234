-- ===== src/Domain/Coupon.antt =====
-- src/domain/entities/coupon.entity.ts. `now` is what `new Date()` returns, in milliseconds.
-- The discount rates of the program are whole percentages, for which
-- `Math.floor(totalAmount * (discountRate / 100))` is the floor of the exact quotient.
use hanghae_plus_backend.Prelude.{ℕ, Bool, true, false, not, ◌&&◌, ltb, if◌then◌else◌}
use hanghae_plus_backend.Prelude.Int.{ℤ, pos, ◌*ℤ◌, floor_div, ltb_ℤ}

pub data CouponType : Type 0 where
  discount_10_percent discount_20_percent discount_30_percent fixed_1000 fixed_2000 limited_offer :
      CouponType

pub record Coupon : Type 0 where
  pub id : ℕ
  pub user_id : ℕ
  pub coupon_type : CouponType
  pub discount_rate : ℤ
  pub discount_amount : ℤ
  pub expiry_date : ℕ
  pub is_used : Bool

-- `Coupon.use`
unfoldable pub use_coupon : Coupon → Coupon
use_coupon c = record c { is_used = true }

unfoldable pub revert_usage : Coupon → Coupon
revert_usage c = record c { is_used = false }

unfoldable pub is_expired : ℕ → Coupon → Bool
is_expired now c = ltb c.expiry_date now

unfoldable pub is_valid : ℕ → Coupon → Bool
unfolding is_expired
is_valid now c = not c.is_used && not (is_expired now c)

unfoldable pub calculate_discount : ℕ → Coupon → ℤ → ℤ
unfolding is_valid
calculate_discount now c total_amount =
    if not (is_valid now c)
    then pos 0
    else if ltb_ℤ (pos 0) c.discount_rate
    then floor_div (total_amount *ℤ c.discount_rate) 100
    else c.discount_amount
