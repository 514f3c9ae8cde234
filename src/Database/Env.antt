-- ===== src/Database/Env.antt =====
-- The third-party parts together: what src/app.module.ts injects.
use hanghae_plus_backend.Database.Entity.{user_key, product_key, coupon_key, order_key, payment_key}
use hanghae_plus_backend.Database.TypeOrm.{TypeOrm}
use hanghae_plus_backend.Database.Redis.{RedisServiceInterface}

pub record Env : Type 1 where
  pub users : TypeOrm user_key
  pub products : TypeOrm product_key
  pub coupons : TypeOrm coupon_key
  pub orders : TypeOrm order_key
  pub payments : TypeOrm payment_key
  pub redis : RedisServiceInterface
