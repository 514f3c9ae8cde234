-- ===== src/Service/CouponQueries.antt =====
-- The rest of src/infrastructure/services/coupon.service.ts: the ranking, the state of the queue, the initial
-- stock and the coupons of a user.
use hanghae_plus_backend.Prelude.{ℕ, suc, ◌+◌, String, Bool, Option, none, some, List, [], ◌∷◌}
use hanghae_plus_backend.Prelude.Int.{ℤ, pos, ◌-ℤ◌}
use hanghae_plus_backend.App.{Action, pure, gets, ◌>>=◌, ◌>>◌}
use hanghae_plus_backend.Database.Env.{Env}
use hanghae_plus_backend.Database.Redis.{
  coupon_queue, coupon_issued, coupon_rank, coupon_stock, coupon_endtime,
}
use hanghae_plus_backend.Domain.Coupon.{Coupon}
use hanghae_plus_backend.Repository.Coupon as Rows
use hanghae_plus_backend.Service.Issuing.{is_ended}
use hanghae_plus_backend.Service.RedisCall.{zscore, redis_read, redis_write}

pub record RankingEntry : Type 0 where
  pub user_id : ℕ
  pub rank : ℕ
  pub issued_at : ℤ

pub record QueueStatus : Type 0 where
  pub total_issued : ℕ
  pub total_in_queue : ℕ
  pub remaining_stock : ℤ
  pub is_ended : Bool

-- `issuedAt ? Math.floor(issuedAt) : 0`
abbrev pub or_zero : Option ℤ → ℤ
or_zero none = pos 0
or_zero (some x) = x

module _ {env : Env} where
  -- The loop over the entries from an index on; the rank is the index and one.
  unfoldable pub rank_each : String → ℕ → List (ℕ × ℤ) → Action env (List RankingEntry)
  rank_each t index [] = pure []
  rank_each t index ((user_id, score) ∷ rankings) =
      zscore (coupon_issued t) user_id >>= λ issued_at. rank_each t (suc index) rankings >>= λ rest.
      pure (record { user_id = user_id; rank = index + 1; issued_at = or_zero issued_at } ∷ rest)

  unfoldable pub get_coupon_ranking : String → (limit : ℕ) → Action env (List RankingEntry)
  get_coupon_ranking t limit =
      redis_read (env.redis.zrange (coupon_rank t) (pos 0) (pos limit -ℤ pos 1)) >>= λ rankings.
      rank_each t 0 rankings

  unfoldable pub get_coupon_queue_status : String → Action env QueueStatus
  get_coupon_queue_status t = do
    total_issued ← redis_read (env.redis.zcard (coupon_issued t))
    total_in_queue ← redis_read (env.redis.zcard (coupon_queue t))
    remaining_stock ← redis_read (env.redis.get (coupon_stock t))
    end_time ← redis_read (env.redis.get (coupon_endtime t))
    now ← gets (λ s. s.now)
    pure (record {
      total_issued = total_issued;
      total_in_queue = total_in_queue;
      remaining_stock = or_zero remaining_stock;
      is_ended = is_ended now end_time;
    })

  unfoldable pub initialize_coupon_stock : Action env (Unit {0})
  initialize_coupon_stock =
      redis_write (env.redis.set (coupon_stock "DISCOUNT_10PERCENT") (pos 100))
      >> (redis_write (env.redis.set (coupon_stock "DISCOUNT_20PERCENT") (pos 50))
          >> (redis_write (env.redis.set (coupon_stock "FIXED_1000") (pos 200))
              >> redis_write (env.redis.set (coupon_stock "FIXED_2000") (pos 100))))

  unfoldable pub get_user_coupons : ℕ → Action env (List Coupon)
  get_user_coupons user_id = Rows.find_by_user_id user_id
