-- ===== src/Issuing/Calls.antt =====
-- The calls that src/infrastructure/services/coupon.service.ts makes to issue a coupon: what each
-- does to the sorted sets and counters.
use hanghae_plus_backend.Prelude.{
  ℕ, ◌≡◌, inl, inr, String, true, Option, none, some, arith, ◌==◌, ◌&&◌, if◌then◌else◌,
  Option-cases,
}
use hanghae_plus_backend.Prelude.Int.{ℤ, pos}
use hanghae_plus_backend.App.{State, Action, ◌>>◌, run-cases}
use hanghae_plus_backend.Database.Env.{Env}
use hanghae_plus_backend.Database.Redis.{
  Key, same_key, prefix, coupon_queue, coupon_issued, coupon_rank,
}
use hanghae_plus_backend.Failure.{ok}
use hanghae_plus_backend.Service.RedisCall.{zscore, zadd, zrem, redis_read, redis_write}
use hanghae_plus_backend.Service.Issuing.{
  is_issued, is_queued, is_open, check_coupon_availability, record_user_rank, remove_user_rank,
  finalize_user_rank,
}

same_prefix : (a b : Key) → same_key a b ≡ true → prefix a ≡ prefix b
same_prefix a b h = ground arith

module _ {env : Env} where
  abbrev pub value : Key → State env → ℤ
  value k s = env.redis.value k s.redis

  abbrev pub score : Key → ℕ → State env → Option ℤ
  score k m s = env.redis.score k m s.redis

  -- No counter has changed, and nothing but the Redis store.
  pub record Quiet (s s' : State env) : Type 0 where
    pub values : (k : Key) → value k s' ≡ value k s
    pub frame : s' ≡ record s { redis = s'.redis }

  >>-Quiet :
      {A : Type 0} (m : Action env (Unit {0})) (k : Action env A)
      → ((s : State env) → Quiet s (m s).1)
      → ((s : State env) → Quiet s (k s).1)
      → (s : State env) → Quiet s ((m >> k) s).1
  >>-Quiet m k first rest s = elim (run-cases m s) [
    | inr (x, s₁, failed) ↦ record {
      values = λ i. ground (arith, (first s).values i);
      frame = ground (arith, (first s).frame);
    }
    | inl (_, s₁, done) ↦ record {
      values = λ i. ground (arith, (first s).values i, (rest s₁).values i);
      frame = ground (arith, (first s).frame, (rest s₁).frame);
    }
  ]

  zadd-Quiet : (k : Key) (x : ℤ) (m : ℕ) (s : State env) → Quiet s (zadd k x m s).1
  unfolding zadd redis_write
  zadd-Quiet k x m s = elim (Option-cases (env.redis.zadd k x m s.redis)) [
    | inl refused ↦ record { values = λ i. ground arith; frame = ground arith }
    | inr (r, done) ↦ record {
      values = λ i. ground (arith, env.redis.value-zadd k x m s.redis done i);
      frame = ground arith;
    }
  ]

  zrem-Quiet : (k : Key) (m : ℕ) (s : State env) → Quiet s (zrem k m s).1
  unfolding zrem redis_write
  zrem-Quiet k m s = elim (Option-cases (env.redis.zrem k m s.redis)) [
    | inl refused ↦ record { values = λ i. ground arith; frame = ground arith }
    | inr (r, done) ↦ record {
      values = λ i. ground (arith, env.redis.value-zrem k m s.redis done i);
      frame = ground arith;
    }
  ]

  pub zadd-score :
      (k : Key) (x : ℤ) (m : ℕ) (s : State env) {s' : State env}
      → zadd k x m s ≡ (ok tt, s')
      → (j : Key) (n : ℕ)
      → score j n s' ≡ (if same_key k j && (m == n) then some x else score j n s)
  unfolding zadd redis_write
  zadd-score k x m s {s'} h j n = elim (Option-cases (env.redis.zadd k x m s.redis)) [
    | inl refused ↦ ground arith
    | inr (r, done) ↦ ground (arith, env.redis.score-zadd k x m s.redis done j n)
  ]

  pub zrem-score :
      (k : Key) (m : ℕ) (s : State env) {s' : State env}
      → zrem k m s ≡ (ok tt, s')
      → (j : Key) (n : ℕ) → score j n s' ≡ (if same_key k j && (m == n) then none else score j n s)
  unfolding zrem redis_write
  zrem-score k m s {s'} h j n = elim (Option-cases (env.redis.zrem k m s.redis)) [
    | inl refused ↦ ground arith
    | inr (r, done) ↦ ground (arith, env.redis.score-zrem k m s.redis done j n)
  ]

  -- The availability is only read, and a user who may get the coupon neither has it nor waits for it.
  pub check-unchanged :
      (user_id : ℕ) (t : String) (s : State env) → (check_coupon_availability user_id t s).1 ≡ s
  unfolding check_coupon_availability is_issued is_queued is_open zscore redis_read
  check-unchanged user_id t s = ground arith

  pub check-available :
      (user_id : ℕ) (t : String) (s : State env) {s' : State env}
      → check_coupon_availability user_id t s ≡ (ok true, s')
      → (score (coupon_issued t) user_id s ≡ none) × (score (coupon_queue t) user_id s ≡ none)
  unfolding check_coupon_availability is_issued is_queued zscore
  check-available user_id t s h =
      elim (Option-cases (env.redis.zscore (coupon_issued t) user_id s.redis)) [
        | inl refused ↦ ground arith
        | inr (a, already) ↦
            let is_a = env.redis.zscore_score (coupon_issued t) user_id s.redis already in
            elim (Option-cases (env.redis.zscore (coupon_queue t) user_id s.redis)) [
              | inl refused ↦ ground arith
              | inr (b, waiting) ↦
                  let is_b = env.redis.zscore_score (coupon_queue t) user_id s.redis waiting in
                  ground arith
            ]
      ]

  pub record_user_rank-Quiet :
      (user_id : ℕ) (t : String) (s : State env) → Quiet s (record_user_rank user_id t s).1
  unfolding record_user_rank redis_read
  record_user_rank-Quiet user_id t s =
      let added = zadd-Quiet (coupon_queue t) (pos s.now) user_id s in
      record { values = λ k. ground (arith, added.values k); frame = ground (arith, added.frame) }

  pub remove_user_rank-Quiet :
      (user_id : ℕ) (t : String) (s : State env) → Quiet s (remove_user_rank user_id t s).1
  unfolding remove_user_rank
  remove_user_rank-Quiet user_id t s = zrem-Quiet (coupon_queue t) user_id s

  pub finalize_user_rank-Quiet :
      (user_id : ℕ) (t : String) (rank : ℤ) (s : State env)
      → Quiet s (finalize_user_rank user_id t rank s).1
  unfolding finalize_user_rank
  finalize_user_rank-Quiet user_id t rank s =
      >>-Quiet (zadd (coupon_issued t) (pos s.now) user_id)
        (zadd (coupon_rank t) rank user_id >> remove_user_rank user_id t)
        (zadd-Quiet (coupon_issued t) (pos s.now) user_id)
        (>>-Quiet (zadd (coupon_rank t) rank user_id) (remove_user_rank user_id t)
          (zadd-Quiet (coupon_rank t) rank user_id) (remove_user_rank-Quiet user_id t))
        s
