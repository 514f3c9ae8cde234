-- ===== src/Service/Issuing.antt =====
-- src/infrastructure/services/coupon.service.ts: `issueCoupon` and what it calls. Days of 24 hours
-- stand for `setDate`, which keeps the local time of the day.
use hanghae_plus_backend.Prelude.{
  ℕ, ◌+◌, ◌*◌, String, Bool, true, false, not, Option, none, some, [], ◌∷◌, ◌++◌, if◌then◌else◌,
  str_eq,
}
use hanghae_plus_backend.Prelude.Int.{ℤ, pos, ltb_ℤ}
use hanghae_plus_backend.App.{Action, pure, raise, gets, catch, modify, ◌>>=◌, ◌>>◌}
use hanghae_plus_backend.Database.Env.{Env}
use hanghae_plus_backend.Database.Redis.{
  coupon_queue, coupon_issued, coupon_rank, coupon_stock, coupon_endtime,
}
use hanghae_plus_backend.Failure.{
  Exception, plain, bad, internal, includes, coupon_unavailable, coupon_sold_out,
  invalid_coupon_type, server_error,
}
use hanghae_plus_backend.Dto.{IssueCouponDto}
use hanghae_plus_backend.Domain.Coupon.{
  Coupon, CouponType, discount_10_percent, discount_20_percent, discount_30_percent, fixed_1000,
  fixed_2000, limited_offer,
}
use hanghae_plus_backend.Domain.RankingLog
use hanghae_plus_backend.Repository.Coupon as Rows
use hanghae_plus_backend.Service.RedisCall.{zscore, zadd, zrem, redis_read, redis_count}

-- `Object.values(CouponType).includes(couponType)`
abbrev pub coupon_type_of : String → Option CouponType
coupon_type_of t =
    if str_eq t "DISCOUNT_10PERCENT"
    then some discount_10_percent
    else if str_eq t "DISCOUNT_20PERCENT"
    then some discount_20_percent
    else if str_eq t "DISCOUNT_30PERCENT"
    then some discount_30_percent
    else if str_eq t "FIXED_1000"
    then some fixed_1000
    else if str_eq t "FIXED_2000"
    then some fixed_2000
    else if str_eq t "LIMITED_OFFER"
    then some limited_offer
    else none

pub record CouponConfig : Type 0 where
  pub discount_rate : ℤ
  pub discount_amount : ℤ
  pub expiry_days : ℕ

abbrev pub coupon_configs : CouponType → CouponConfig
coupon_configs discount_10_percent = record {
  discount_rate = pos 10;
  discount_amount = pos 0;
  expiry_days = 30;
}
coupon_configs discount_20_percent = record {
  discount_rate = pos 20;
  discount_amount = pos 0;
  expiry_days = 30;
}
coupon_configs discount_30_percent = record {
  discount_rate = pos 30;
  discount_amount = pos 0;
  expiry_days = 30;
}
coupon_configs fixed_1000 = record {
  discount_rate = pos 0;
  discount_amount = pos 1000;
  expiry_days = 30;
}
coupon_configs fixed_2000 = record {
  discount_rate = pos 0;
  discount_amount = pos 2000;
  expiry_days = 30;
}
coupon_configs limited_offer = record {
  discount_rate = pos 15;
  discount_amount = pos 0;
  expiry_days = 7;
}

-- `new Coupon(0, …, false)`
abbrev pub new_coupon : ℕ → ℕ → CouponType → Coupon
new_coupon now user_id t = record {
  id = 0;
  user_id = user_id;
  coupon_type = t;
  discount_rate = (coupon_configs t).discount_rate;
  discount_amount = (coupon_configs t).discount_amount;
  expiry_date = now + (coupon_configs t).expiry_days * 86400000;
  is_used = false;
}

abbrev pub is_some {ℓ} : {A : Type ℓ} → Option A → Bool
is_some none = false
is_some (some _) = true

-- `issueEndTime && Date.now() > parseInt(issueEndTime)`
abbrev pub is_ended : ℕ → Option ℤ → Bool
is_ended now none = false
is_ended now (some end) = ltb_ℤ end (pos now)

abbrev pub issue_error : Exception → Exception
issue_error e =
    if includes e.message (invalid_coupon_type "")
    then bad e.message
    else if includes e.message (coupon_sold_out "")
    then bad e.message
    else if includes e.message (coupon_unavailable "")
    then bad e.message
    else internal server_error

module _ {env : Env} where
  -- The user has the coupon already.
  unfoldable pub is_issued : ℕ → String → Action env Bool
  is_issued user_id t = do already ← zscore (coupon_issued t) user_id; pure (is_some already)

  unfoldable pub is_queued : ℕ → String → Action env Bool
  is_queued user_id t = do in_queue ← zscore (coupon_queue t) user_id; pure (is_some in_queue)

  unfoldable pub is_open : String → Action env Bool
  is_open t = do
    end ← redis_read (env.redis.get (coupon_endtime t))
    now ← gets (λ s. s.now)
    pure (not (is_ended now end))

  unfoldable pub check_coupon_availability : ℕ → String → Action env Bool
  check_coupon_availability user_id t = do
    already ← is_issued user_id t
    if already
        then pure false
        else (do in_queue ← is_queued user_id t; if in_queue then pure false else is_open t)

  unfoldable pub record_user_rank : ℕ → String → Action env ℤ
  record_user_rank user_id t = do
    now ← gets (λ s. s.now)
    zadd (coupon_queue t) (pos now) user_id
    redis_read (env.redis.zrank (coupon_queue t) user_id)

  unfoldable pub remove_user_rank : ℕ → String → Action env (Unit {0})
  remove_user_rank user_id t = zrem (coupon_queue t) user_id

  unfoldable pub finalize_user_rank : ℕ → String → ℤ → Action env (Unit {0})
  finalize_user_rank user_id t rank = do
    now ← gets (λ s. s.now)
    zadd (coupon_issued t) (pos now) user_id
    zadd (coupon_rank t) rank user_id
    remove_user_rank user_id t

  -- The log is saved later, by a call that `setImmediate` queues.
  unfoldable pub save_ranking_log_async : ℕ → String → ℤ → Action env (Unit {0})
  save_ranking_log_async user_id t rank =
      modify λ s. record s { logs = s.logs ++ RankingLog.create s.now user_id t rank ∷ [] }

  unfoldable pub create_and_save_coupon : IssueCouponDto → Action env Coupon
  create_and_save_coupon dto = elim (coupon_type_of dto.coupon_type) [
    | none ↦ raise (plain (invalid_coupon_type dto.coupon_type))
    | some t ↦ gets (λ s. s.now) >>= λ now. Rows.save (new_coupon now dto.user_id t)
  ]

  -- The stock was lowered below zero: the user leaves the queue and the stock is put back.
  unfoldable pub refuse_sold_out : IssueCouponDto → Action env Coupon
  refuse_sold_out dto = do
    remove_user_rank dto.user_id dto.coupon_type
    redis_count (env.redis.incr (coupon_stock dto.coupon_type))
    raise (plain (coupon_sold_out dto.coupon_type))

  unfoldable pub issue_taken : IssueCouponDto → ℤ → Action env Coupon
  issue_taken dto rank = do
    coupon ← create_and_save_coupon dto
    finalize_user_rank dto.user_id dto.coupon_type rank
    save_ranking_log_async dto.user_id dto.coupon_type rank
    pure coupon

  -- Steps 2 to 6, for a user who may get the coupon.
  unfoldable pub issue_available : IssueCouponDto → Action env Coupon
  issue_available dto = do
    rank ← record_user_rank dto.user_id dto.coupon_type
    remaining ← redis_count (env.redis.decr (coupon_stock dto.coupon_type))
    if ltb_ℤ remaining (pos 0) then refuse_sold_out dto else issue_taken dto rank

  unfoldable pub try_issue : IssueCouponDto → Action env Coupon
  try_issue dto = do
    can_issue ← check_coupon_availability dto.user_id dto.coupon_type
    if can_issue then issue_available dto else raise (plain (coupon_unavailable dto.coupon_type))

  unfoldable pub issue_coupon : IssueCouponDto → Action env Coupon
  issue_coupon dto = catch (try_issue dto) (λ e. raise (issue_error e))
