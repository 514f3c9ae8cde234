-- ===== src/Issuing/Once.antt =====
-- `issueCoupon` of src/infrastructure/services/coupon.service.ts, when more requests follow: who has a coupon
-- stays on record.
use hanghae_plus_backend.Prelude.{
  ℕ, ◌≡◌, ◌≢◌, inl, inr, String, Bool, true, List, [], ◌∷◌, arith, Option-cases, Bool-cases,
}
use hanghae_plus_backend.Prelude.Int.{ℤ, pos, ltb_ℤ}
use hanghae_plus_backend.App.{State, Action, ◌>>◌, run-cases}
use hanghae_plus_backend.Database.Env.{Env}
use hanghae_plus_backend.Database.Redis.{
  Key, coupon_queue, coupon_issued, coupon_rank, coupon_stock,
}
use hanghae_plus_backend.Dto.{IssueCouponDto}
use hanghae_plus_backend.Failure.{ok}
use hanghae_plus_backend.Domain.Coupon.{Coupon}
use hanghae_plus_backend.Service.RedisCall.{zadd, zrem, redis_read, redis_write, redis_count}
use hanghae_plus_backend.Service.Issuing.{
  is_some, create_and_save_coupon, save_ranking_log_async, finalize_user_rank, record_user_rank,
  remove_user_rank, check_coupon_availability, refuse_sold_out, issue_taken, issue_available,
  try_issue, issue_coupon,
}
use hanghae_plus_backend.Issuing.Calls.{score, check-unchanged}
use hanghae_plus_backend.Issuing.Stock.{create_and_save_coupon-redis}
use hanghae_plus_backend.Issuing.Issued.{issue_coupon-Issued}

module _ {env : Env} where
  -- The requests one after the other, each at its time.
  abbrev pub requested : List (ℕ × IssueCouponDto) → State env → State env
  requested [] s = s
  requested ((now, dto) ∷ more) s = requested more (issue_coupon dto (record s { now = now })).1

module _ {env : Env} (t : String) (user_id : ℕ) where
  -- Whether the user is on record as one who has a coupon of the type.
  abbrev has_coupon : State env → Bool
  has_coupon s = is_some (score (coupon_issued t) user_id s)

  abbrev Keeps : State env → State env → Type 0
  Keeps s s' = has_coupon s ≡ true → has_coupon s' ≡ true

  >>-Keeps :
      {A : Type 0} (m : Action env (Unit {0})) (k : Action env A)
      → ((s : State env) → Keeps s (m s).1)
      → ((s : State env) → Keeps s (k s).1)
      → (s : State env) → Keeps s ((m >> k) s).1
  >>-Keeps m k first rest s h = elim (run-cases m s) [
    | inr (x, s₁, failed) ↦ ground (arith, first s h)
    | inl (_, s₁, done) ↦
        let kept : has_coupon s₁ ≡ true = ground (arith, first s h) in ground (arith, rest s₁ kept)
  ]

  zadd-Keeps : (k : Key) (x : ℤ) (m : ℕ) (s : State env) → Keeps s (zadd k x m s).1
  unfolding zadd redis_write
  zadd-Keeps k x m s h = elim (Option-cases (env.redis.zadd k x m s.redis)) [
    | inl refused ↦ ground arith
    | inr (r, done) ↦
        ground (arith, env.redis.score-zadd k x m s.redis done (coupon_issued t) user_id)
  ]

  remove_user_rank-Keeps :
      (m : ℕ) (type : String) (s : State env) → Keeps s (remove_user_rank m type s).1
  unfolding remove_user_rank zrem redis_write
  remove_user_rank-Keeps m type s h =
      elim (Option-cases (env.redis.zrem (coupon_queue type) m s.redis)) [
        | inl refused ↦ ground arith
        | inr (r, done) ↦ ground (
          arith,
          env.redis.score-zrem (coupon_queue type) m s.redis done (coupon_issued t) user_id,
        )
      ]

  record_user_rank-Keeps :
      (m : ℕ) (type : String) (s : State env) → Keeps s (record_user_rank m type s).1
  unfolding record_user_rank redis_read
  record_user_rank-Keeps m type s h =
      ground (arith, zadd-Keeps (coupon_queue type) (pos s.now) m s h)

  finalize_user_rank-Keeps :
      (m : ℕ) (type : String) (rank : ℤ) (s : State env)
      → Keeps s (finalize_user_rank m type rank s).1
  unfolding finalize_user_rank
  finalize_user_rank-Keeps m type rank s =
      >>-Keeps (zadd (coupon_issued type) (pos s.now) m)
        (zadd (coupon_rank type) rank m >> remove_user_rank m type)
        (zadd-Keeps (coupon_issued type) (pos s.now) m)
        (>>-Keeps (zadd (coupon_rank type) rank m) (remove_user_rank m type)
          (zadd-Keeps (coupon_rank type) rank m) (remove_user_rank-Keeps m type))
        s

  issue_taken-Keeps :
      (dto : IssueCouponDto) (rank : ℤ) (s : State env) → Keeps s (issue_taken dto rank s).1
  unfolding issue_taken save_ranking_log_async
  issue_taken-Keeps dto rank s h =
      let same = create_and_save_coupon-redis dto s in
      elim (run-cases (create_and_save_coupon dto) s) [
        | inr (x, s₁, failed) ↦ ground (arith, same)
        | inl (c, s₁, saved) ↦
            let kept : has_coupon s₁ ≡ true = ground (arith, same) in
            ground (arith, finalize_user_rank-Keeps dto.user_id dto.coupon_type rank s₁ kept)
      ]

  refuse_sold_out-Keeps : (dto : IssueCouponDto) (s : State env) → Keeps s (refuse_sold_out dto s).1
  unfolding refuse_sold_out redis_count
  refuse_sold_out-Keeps dto s h =
      let kept = remove_user_rank-Keeps dto.user_id dto.coupon_type s h in
      elim (run-cases (remove_user_rank dto.user_id dto.coupon_type) s) [
        | inr (x, s₁, failed) ↦ ground (arith, kept)
        | inl (_, s₁, removed) ↦
            elim (Option-cases (env.redis.incr (coupon_stock dto.coupon_type) s₁.redis)) [
              | inl refused ↦ ground (arith, kept)
              | inr ((n, r), counted) ↦ ground (
                arith,
                kept,
                env.redis.score-incr (coupon_stock dto.coupon_type) s₁.redis counted
                    (coupon_issued t) user_id,
              )
            ]
      ]

  issue_available-Keeps : (dto : IssueCouponDto) (s : State env) → Keeps s (issue_available dto s).1
  unfolding issue_available redis_count
  issue_available-Keeps dto s h =
      let kept = record_user_rank-Keeps dto.user_id dto.coupon_type s h in
      elim (run-cases (record_user_rank dto.user_id dto.coupon_type) s) [
        | inr (x, s₁, failed) ↦ ground (arith, kept)
        | inl (rank, s₁, ranked) ↦
            elim (Option-cases (env.redis.decr (coupon_stock dto.coupon_type) s₁.redis)) [
              | inl refused ↦ ground (arith, kept)
              | inr ((n, r), counted) ↦
                  let s₂ : State env = record s₁ { redis = r } in
                  let there : has_coupon s₂ ≡ true = ground (
                    arith,
                    kept,
                    env.redis.score-decr (coupon_stock dto.coupon_type) s₁.redis counted
                        (coupon_issued t) user_id,
                  ) in
                  elim (Bool-cases (ltb_ℤ n (pos 0))) [
                    | inl below ↦ ground (arith, refuse_sold_out-Keeps dto s₂ there)
                    | inr left ↦ ground (arith, issue_taken-Keeps dto rank s₂ there)
                  ]
            ]
      ]

  issue_coupon-Keeps : (dto : IssueCouponDto) (s : State env) → Keeps s (issue_coupon dto s).1
  unfolding issue_coupon try_issue
  issue_coupon-Keeps dto s h =
      let same = check-unchanged dto.user_id dto.coupon_type s in
      let rest = issue_available-Keeps dto s h in
      elim (run-cases (check_coupon_availability dto.user_id dto.coupon_type) s) [
        | inr (x, s₁, failed) ↦ ground (arith, same)
        | inl (can_issue, s₁, checked) ↦ elim (Bool-cases can_issue) [
          | inl allowed ↦
              let ends : (issue_coupon dto s).1 ≡ (issue_available dto s).1 =
                ground (arith, same) in
              rw ends rest
          | inr barred ↦ ground (arith, same)
        ]
      ]

  requested-Keeps :
      (others : List (ℕ × IssueCouponDto)) (s : State env) → Keeps s (requested others s)
  requested-Keeps [] s h = h
  requested-Keeps ((now, dto) ∷ others) s h =
      requested-Keeps others (issue_coupon dto (record s { now = now })).1
        (issue_coupon-Keeps dto (record s { now = now }) h)

module _ {env : Env} where
  -- A user gets one coupon of a type: after a request that was answered, and however many requests for
  -- coupons that follow it, of whatever users and types and at whatever times, a request of the same
  -- user for the same type is not answered with a coupon.
  pub issue_coupon-once :
      (dto : IssueCouponDto) (others : List (ℕ × IssueCouponDto)) (later : ℕ) (s : State env)
      {c d : Coupon} {s' s'' : State env}
      → issue_coupon dto s ≡ (ok c, s')
      → issue_coupon dto (record (requested others s') { now = later }) ≢ (ok d, s'')
  issue_coupon-once dto others later s {c} {d} {s'} {s''} h again =
      let (t, first) = issue_coupon-Issued dto s h in
      let (t', second) =
        issue_coupon-Issued dto (record (requested others s') { now = later }) again in
      let there =
        requested-Keeps dto.coupon_type dto.user_id others s' (ground (arith, first.issued)) in
      ground (arith, there, second.unissued)
