-- ===== src/Handler/Restore.antt =====
-- The compensation that src/infrastructure/event-handlers/order-failed.handler.ts and
-- payment-failed.handler.ts each spell out: stock, coupon, ranking.
use hanghae_plus_backend.Prelude.{ℕ, Option, none, some, List, if◌then◌else◌}
use hanghae_plus_backend.Prelude.Int.{ℤ, pos, ◌-ℤ◌, ltb_ℤ}
use hanghae_plus_backend.App.{Action, pure, raise, gets, catch, for_each, ◌>>=◌, ◌>>◌}
use hanghae_plus_backend.Database.Env.{Env}
use hanghae_plus_backend.Failure.{plain, product_gone, coupon_gone}
use hanghae_plus_backend.Domain.Product.{Product, increase_stock}
use hanghae_plus_backend.Domain.Coupon.{Coupon, revert_usage}
use hanghae_plus_backend.Database.Redis.{Key}
use hanghae_plus_backend.Event.{EventItem}
use hanghae_plus_backend.Service.RedisCall.{zscore, zadd}
use hanghae_plus_backend.Service.Products
use hanghae_plus_backend.Service.Coupons
use hanghae_plus_backend.UseCase.CreateOrder.{daily_ranking_key}

-- `Math.max(0, a)`
abbrev pub at_least_zero : ℤ → ℤ
at_least_zero a = if ltb_ℤ a (pos 0) then pos 0 else a

module _ {env : Env} where
  unfoldable pub restore_found : EventItem → Option Product → Action env (Unit {0})
  restore_found item none = raise (plain (product_gone item.product_id))
  restore_found item (some p) = Products.save (increase_stock p item.quantity) >> pure tt

  -- One round of the loop of `restoreProductStock`.
  unfoldable pub restore_item : EventItem → Action env (Unit {0})
  restore_item item = Products.find_by_id item.product_id >>= restore_found item

  unfoldable pub restore_product_stock : List EventItem → Action env (Unit {0})
  restore_product_stock items = for_each items restore_item

  unfoldable pub restore_coupon : ℕ → Option Coupon → Action env (Unit {0})
  restore_coupon coupon_id none = raise (plain (coupon_gone coupon_id))
  restore_coupon coupon_id (some c) =
      if c.is_used then (Coupons.save (revert_usage c) >> pure tt) else pure tt

  unfoldable pub restore_coupon_usage : ℕ → Action env (Unit {0})
  restore_coupon_usage coupon_id = Coupons.find_by_id coupon_id >>= restore_coupon coupon_id

  unfoldable pub lower_score : Key → EventItem → Option ℤ → Action env (Unit {0})
  lower_score key item none = pure tt
  lower_score key item (some score) =
      zadd key (at_least_zero (score -ℤ item.quantity)) item.product_id

  -- A failure for one product is logged only.
  unfoldable pub restore_rank : Key → EventItem → Action env (Unit {0})
  restore_rank key item = catch (zscore key item.product_id >>= lower_score key item) (λ _. pure tt)

  unfoldable pub restore_product_ranking : List EventItem → Action env (Unit {0})
  restore_product_ranking items = do
    now ← gets (λ s. s.now)
    for_each items (restore_rank (daily_ranking_key now))

  -- `if (event.couponId) { restoreCouponUsage }`
  unfoldable pub restore_coupon_if : Option ℕ → Action env (Unit {0})
  restore_coupon_if none = pure tt
  restore_coupon_if (some id) = restore_coupon_usage id

  unfoldable pub compensate : List EventItem → Option ℕ → Action env (Unit {0})
  compensate items coupon_id = do
    restore_product_stock items
    restore_coupon_if (Coupons.truthy coupon_id)
    restore_product_ranking items
