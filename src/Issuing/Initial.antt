-- ===== src/Issuing/Initial.antt =====
-- initializeCouponStock of src/infrastructure/services/coupon.service.ts, and how many coupons can be
-- issued after it.
use hanghae_plus_backend.Prelude.{
  ◌≤◌, ◌≡◌, inl, inr, String, List, arith, if◌then◌else◌, str_eq, Option-cases,
}
use hanghae_plus_backend.Prelude.Int.{ℤ, pos, pos_part}
use hanghae_plus_backend.App.{State, run-cases}
use hanghae_plus_backend.Database.Env.{Env}
use hanghae_plus_backend.Database.Redis.{coupon_stock}
use hanghae_plus_backend.Dto.{IssueCouponDto}
use hanghae_plus_backend.Failure.{ok}
use hanghae_plus_backend.Service.RedisCall.{redis_write}
use hanghae_plus_backend.Service.CouponQueries.{initialize_coupon_stock}
use hanghae_plus_backend.Issuing.Calls.{value}
use hanghae_plus_backend.Issuing.Bound.{answered, answered-le-stock}

-- What the counter of a type is set to, or what it was.
abbrev pub initial : String → ℤ → ℤ
initial t n =
    if str_eq "FIXED_2000" t
    then pos 100
    else if str_eq "FIXED_1000" t
    then pos 200
    else if str_eq "DISCOUNT_20PERCENT" t
    then pos 50
    else if str_eq "DISCOUNT_10PERCENT" t
    then pos 100
    else n

module _ {env : Env} where
  set_stock-value :
      (k : String) (n : ℤ) (s : State env) {s' : State env}
      → redis_write (env.redis.set (coupon_stock k) n) s ≡ (ok tt, s')
      → (t : String)
      → value (coupon_stock t) s' ≡ (if str_eq k t then n else value (coupon_stock t) s)
  unfolding redis_write
  set_stock-value k n s {s'} h t = elim (Option-cases (env.redis.set (coupon_stock k) n s.redis)) [
    | inl refused ↦ ground arith
    | inr (r, written) ↦
        ground (arith, env.redis.value-set (coupon_stock k) n s.redis written (coupon_stock t))
  ]

  initialize_coupon_stock-value :
      (s : State env) {s' : State env}
      → initialize_coupon_stock s ≡ (ok tt, s')
      → (t : String) → value (coupon_stock t) s' ≡ initial t (value (coupon_stock t) s)
  unfolding initialize_coupon_stock
  initialize_coupon_stock-value s {s'} h t =
      elim (run-cases (redis_write (env.redis.set (coupon_stock "DISCOUNT_10PERCENT") (pos 100)))
        s) [
          | inr (e, z, failed) ↦ ground arith
          | inl (_, s₁, h₁) ↦
              elim (run-cases
                (redis_write (env.redis.set (coupon_stock "DISCOUNT_20PERCENT") (pos 50))) s₁) [
                  | inr (e, z, failed) ↦ ground arith
                  | inl (_, s₂, h₂) ↦
                      elim (run-cases
                        (redis_write (env.redis.set (coupon_stock "FIXED_1000") (pos 200))) s₂) [
                          | inr (e, z, failed) ↦ ground arith
                          | inl (_, s₃, h₃) ↦ ground (
                            arith,
                            set_stock-value "DISCOUNT_10PERCENT" (pos 100) s h₁ t,
                            set_stock-value "DISCOUNT_20PERCENT" (pos 50) s₁ h₂ t,
                            set_stock-value "FIXED_1000" (pos 200) s₂ h₃ t,
                            set_stock-value "FIXED_2000" (pos 100) s₃ {s' = s'} (ground arith) t,
                          )
                        ]
                ]
        ]

  -- After initializeCouponStock has returned, however many requests come one after the other, at
  -- most 100, 50, 200 and 100 of them are answered with a coupon of the four types that it names,
  -- and of another type at most as many as its counter held before.
  pub answered-initialize_coupon_stock :
      (t : String) (dtos : List IssueCouponDto) (s : State env) {s' : State env}
      → initialize_coupon_stock s ≡ (ok tt, s')
      → answered t dtos s' ≤ pos_part (initial t (value (coupon_stock t) s))
  answered-initialize_coupon_stock t dtos s {s'} h =
      ground (arith, answered-le-stock t dtos s', initialize_coupon_stock-value s h t)
