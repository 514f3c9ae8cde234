-- ===== src/Service/Coupons.antt =====
-- src/infrastructure/services/coupon.service.ts: the methods that orders use.
use hanghae_plus_backend.Prelude.{ℕ, Bool, true, false, Option, none, some, ◌==◌, if◌then◌else◌}
use hanghae_plus_backend.Prelude.Int.{ℤ, pos}
use hanghae_plus_backend.App.{Action, pure, gets, ◌>>=◌, ◌>>◌}
use hanghae_plus_backend.Database.Env.{Env}
use hanghae_plus_backend.Domain.Coupon.{Coupon, is_valid, calculate_discount, use_coupon}
use hanghae_plus_backend.Repository.Coupon as Rows

pub record CouponResult : Type 0 where
  pub coupon : Option Coupon
  pub discount_amount : ℤ
  pub coupon_used : Bool

abbrev pub no_discount : CouponResult
no_discount = record { coupon = none; discount_amount = pos 0; coupon_used = false }

-- `if (couponId)`: neither null nor 0.
abbrev pub truthy : Option ℕ → Option ℕ
truthy none = none
truthy (some id) = if id == 0 then none else some id

module _ {env : Env} where
  -- The discount is computed first, then the coupon is marked as used and saved.
  unfoldable pub apply_found : ℤ → Option Coupon → Action env CouponResult
  apply_found total_amount none = pure no_discount
  apply_found total_amount (some c) = do
    now ← gets (λ s. s.now)
    if is_valid now c
        then (do
          Rows.save (use_coupon c)
          pure (record {
            coupon = some (use_coupon c);
            discount_amount = calculate_discount now c total_amount;
            coupon_used = true;
          }))
        else pure no_discount

  unfoldable pub validate_and_calculate_discount : Option ℕ → ℤ → Action env CouponResult
  validate_and_calculate_discount coupon_id total_amount = elim (truthy coupon_id) [
    | none ↦ pure no_discount
    | some id ↦ Rows.find_by_id id >>= apply_found total_amount
  ]

  unfoldable pub find_by_id : ℕ → Action env (Option Coupon)
  find_by_id coupon_id = Rows.find_by_id coupon_id

  unfoldable pub save : Coupon → Action env Coupon
  save c = Rows.save c
