-- ===== src/Issuing/Bound.antt =====
-- However many users ask for a coupon (src/infrastructure/services/coupon.service.ts), no more of
-- them get one than the stock that was set.
use hanghae_plus_backend.Prelude.{
  ℕ, suc, ◌≤◌, ◌≡◌, inl, inr, String, List, [], ◌∷◌, arith, if◌then◌else◌, Bool-cases, str_eq,
  eq_iff,
}
use hanghae_plus_backend.Prelude.Int.{ℤ, pos, negsuc, pos_part, ◌-ℤ◌, ◌≤ℤ◌}
use hanghae_plus_backend.App.{State, run-cases}
use hanghae_plus_backend.Database.Env.{Env}
use hanghae_plus_backend.Database.Redis.{coupon_stock}
use hanghae_plus_backend.Dto.{IssueCouponDto}
use hanghae_plus_backend.Failure.{ok, err}
use hanghae_plus_backend.Service.Issuing.{issue_coupon}
use hanghae_plus_backend.Issuing.Calls.{value}
use hanghae_plus_backend.Issuing.Stock.{issue_available-ok, issue_coupon-value, issue_coupon-ok}

count_one : (v n : ℤ) (k : ℕ) → n ≡ v -ℤ pos 1 → pos 1 ≤ℤ v → k ≤ pos_part n → suc k ≤ pos_part v
unfolding ◌-ℤ◌
count_one (pos v) n k h l m = ground arith
count_one (negsuc v) n k h l m = absurd (omega arith)

count_le : (v n : ℤ) (k : ℕ) → n ≤ℤ v → k ≤ pos_part n → k ≤ pos_part v
count_le (pos v) (pos n) k h m = omega arith
count_le (pos v) (negsuc n) k h m = omega arith
count_le (negsuc v) (pos n) k h m = omega arith
count_le (negsuc v) (negsuc n) k h m = omega arith

module _ {env : Env} where
  -- How many of the requests, one after the other, are answered with a coupon of type `t`.
  abbrev pub answered : String → List IssueCouponDto → State env → ℕ
  answered t [] s = 0
  answered t (dto ∷ dtos) s =
      let rest = answered t dtos (issue_coupon dto s).1 in
      elim (issue_coupon dto s).0 [
        | ok c ↦ if str_eq dto.coupon_type t then suc rest else rest
        | err x ↦ rest
      ]

  -- However many requests for coupons of whatever types come, one after the other, no more of them
  -- are answered with a coupon of type `t` than its stock counter held before, and none if that was
  -- not positive.
  pub answered-le-stock :
      (t : String) (dtos : List IssueCouponDto) (s : State env)
      → answered t dtos s ≤ pos_part (value (coupon_stock t) s)
  answered-le-stock t [] s = omega arith
  answered-le-stock t (dto ∷ dtos) s =
      let rest = answered-le-stock t dtos (issue_coupon dto s).1 in
      let lower = issue_coupon-value dto t s in
      let others =
        count_le (value (coupon_stock t) s) (value (coupon_stock t) (issue_coupon dto s).1)
          (answered t dtos (issue_coupon dto s).1) lower rest in
      elim (run-cases (issue_coupon dto) s) [
        | inr (x, s₁, failed) ↦ ground (arith, others)
        | inl (c, s₁, issued) ↦ elim (Bool-cases (str_eq dto.coupon_type t)) [
          | inr other ↦ ground (arith, others)
          | inl own ↦
              let type : dto.coupon_type ≡ t = (eq_iff dto.coupon_type t).0 own in
              let taken = issue_available-ok dto s (issue_coupon-ok dto s issued).1 in
              let one =
                count_one (value (coupon_stock t) s) (value (coupon_stock t) (issue_coupon dto s).1)
                  (answered t dtos (issue_coupon dto s).1) (ground (arith, taken.1, type))
                  (ground (arith, taken.0, type)) rest in
              ground (arith, one)
        ]
      ]
