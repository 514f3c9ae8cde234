-- ===== src/Repository/Coupon.antt =====
-- src/infrastructure/repositories/coupon.repository.ts
use mathlib.Core.Option
use hanghae_plus_backend.Prelude.{ℕ, Option, none, some, List, map, ◌==◌, if◌then◌else◌}
use hanghae_plus_backend.App.{Action, pure, raise, gets, ◌>>=◌}
use hanghae_plus_backend.Database.Env.{Env}
use hanghae_plus_backend.Failure.{ok, plain, coupon_missing}
use hanghae_plus_backend.Domain.Coupon.{Coupon}
use hanghae_plus_backend.Database.Entity.{CouponEntity}
use hanghae_plus_backend.Repository.Row.{commit}

abbrev pub to_coupon : CouponEntity → Coupon
to_coupon e = record {
  id = e.id;
  user_id = e.user_id;
  coupon_type = e.coupon_type;
  discount_rate = e.discount_rate;
  discount_amount = e.discount_amount;
  expiry_date = e.expiry_date;
  is_used = e.is_used;
}

-- The columns of a coupon, under the key `id`.
abbrev pub of_coupon : ℕ → Coupon → CouponEntity
of_coupon id c = record {
  id = id;
  user_id = c.user_id;
  coupon_type = c.coupon_type;
  discount_rate = c.discount_rate;
  discount_amount = c.discount_amount;
  expiry_date = c.expiry_date;
  is_used = c.is_used;
}

module _ {env : Env} where
  unfoldable pub find_by_id : ℕ → Action env (Option Coupon)
  find_by_id id s = (ok (Option.map to_coupon (env.coupons.find_one s.coupons id)), s)

  unfoldable pub find_by_user_id : ℕ → Action env (List Coupon)
  find_by_user_id user_id s =
      (ok (map to_coupon (env.coupons.find s.coupons (λ e. e.user_id == user_id))), s)

  save_entity : CouponEntity → Action env Coupon
  save_entity e = do
    saved ← (λ s. commit (env.coupons.save s.coupons e) (λ rows. record s { coupons = rows }) s)
    pure (to_coupon saved)

  -- An existing row takes over every column.
  update_entity : Coupon → Option CouponEntity → Action env Coupon
  unfolding save_entity
  update_entity c none = raise (plain coupon_missing)
  update_entity c (some entity) = save_entity (of_coupon entity.id c)

  unfoldable pub save : Coupon → Action env Coupon
  unfolding update_entity save_entity
  save c =
      if c.id == 0
      then save_entity (of_coupon 0 c)
      else (gets (λ s. env.coupons.find_one s.coupons c.id) >>= update_entity c)
