-- ===== src/Tests/Coupons.antt =====
-- The theorems on issuing coupons, with one coupon in stock and two users who ask for it.
use hanghae_plus_backend.Prelude.{ℕ, List, ◌≡◌, ◌≢◌, ◌≤◌, refl, false, [], ◌∷◌, if◌then◌else◌}
use hanghae_plus_backend.Prelude.Int.{pos, pos_part, ◌+ℤ◌, ◌-ℤ◌}
use hanghae_plus_backend.App.{State}
use hanghae_plus_backend.Database.Redis.{same_key, coupon_stock}
use hanghae_plus_backend.Dto.{IssueCouponDto}
use hanghae_plus_backend.Failure.{ok}
use hanghae_plus_backend.Domain.Coupon.{Coupon, CouponType, fixed_1000}
use hanghae_plus_backend.Repository.Coupon as Rows
use hanghae_plus_backend.Service.RedisCall.{
  zscore, zadd, zrem, redis_read, redis_count, redis_write,
}
use hanghae_plus_backend.Service.Issuing.{
  create_and_save_coupon, save_ranking_log_async, finalize_user_rank, record_user_rank,
  remove_user_rank, check_coupon_availability, is_issued, is_queued, is_open, refuse_sold_out,
  issue_taken, issue_available, try_issue, issue_coupon,
}
use hanghae_plus_backend.Issuing.Calls.{value}
use hanghae_plus_backend.Issuing.Bound.{answered, answered-le-stock}
use hanghae_plus_backend.Issuing.Issued.{Issued, issue_coupon-Issued}
use hanghae_plus_backend.Issuing.Once.{requested, issue_coupon-once}
use hanghae_plus_backend.Tests.Stored.{nothing_stored}
use hanghae_plus_backend.Tests.Memory.{in_memory}
use hanghae_plus_backend.Tests.Shop.{shop}
use hanghae_plus_backend.Tests.Runs.{ran}

abbrev stand : State in_memory
stand = record shop {
  redis = record nothing_stored {
    values = λ k. if same_key (coupon_stock "FIXED_1000") k then pos 1 else pos 0;
  };
}

abbrev first : IssueCouponDto
first = record { user_id = 1; coupon_type = "FIXED_1000" }

abbrev second : IssueCouponDto
second = record { user_id = 2; coupon_type = "FIXED_1000" }

abbrev voucher : Coupon
voucher = record {
  id = 2;
  user_id = 1;
  coupon_type = fixed_1000;
  discount_rate = pos 0;
  discount_amount = pos 1000;
  expiry_date = 1702592000000;
  is_used = false;
}

issues : (issue_coupon first stand).0 ≡ ok voucher
unfolding create_and_save_coupon save_ranking_log_async finalize_user_rank record_user_rank
    remove_user_rank check_coupon_availability is_issued is_queued is_open refuse_sold_out
    issue_taken issue_available try_issue issue_coupon Rows.save zscore zadd zrem redis_read
    redis_count redis_write ◌+ℤ◌ ◌-ℤ◌
issues = refl

issue_coupon-Issued_example :
    (t : CouponType) × Issued first t stand (issue_coupon first stand).1 voucher
issue_coupon-Issued_example =
    issue_coupon-Issued first stand (ran (issue_coupon first) stand issues)

answered-le-stock_example :
    answered "FIXED_1000" (first ∷ second ∷ []) stand
    ≤ pos_part (value (coupon_stock "FIXED_1000") stand)
answered-le-stock_example = answered-le-stock "FIXED_1000" (first ∷ second ∷ []) stand

-- Two requests come in between, of another user and of the same.
abbrev others : List (ℕ × IssueCouponDto)
others = (1700000001000, second) ∷ (1700000002000, first) ∷ []

issue_coupon-once_example :
    issue_coupon first
      (record (requested others (issue_coupon first stand).1) { now = 1700000009000 })
    ≢ (ok voucher, (issue_coupon first stand).1)
issue_coupon-once_example =
    issue_coupon-once first others 1700000009000 stand (ran (issue_coupon first) stand issues)
