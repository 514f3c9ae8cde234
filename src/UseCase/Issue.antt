-- ===== src/UseCase/Issue.antt =====
-- src/application/use-cases/coupons/issue-coupon.use-case.ts. The expiry of the response is the day,
-- counted from 1970, that the source writes as YYYY-MM-DD.
use hanghae_plus_backend.Prelude.{ℕ, ◌/◌, Bool}
use hanghae_plus_backend.Prelude.Int.{ℤ}
use hanghae_plus_backend.App.{Action, pure, ◌>>=◌}
use hanghae_plus_backend.Database.Env.{Env}
use hanghae_plus_backend.Dto.{IssueCouponDto}
use hanghae_plus_backend.Domain.Coupon.{Coupon, CouponType}
use hanghae_plus_backend.Service.Issuing.{issue_coupon}

pub record CouponResponseDto : Type 0 where
  pub coupon_id : ℕ
  pub user_id : ℕ
  pub coupon_type : CouponType
  pub discount_rate : ℤ
  pub expiry_date : ℕ
  pub is_used : Bool

abbrev pub coupon_response : Coupon → CouponResponseDto
coupon_response c = record {
  coupon_id = c.id;
  user_id = c.user_id;
  coupon_type = c.coupon_type;
  discount_rate = c.discount_rate;
  expiry_date = c.expiry_date / 86400000;
  is_used = c.is_used;
}

module _ {env : Env} where
  unfoldable pub execute : IssueCouponDto → Action env CouponResponseDto
  execute dto = do coupon ← issue_coupon dto; pure (coupon_response coupon)
