-- ===== src/Service/RedisCall.antt =====
-- Calls of the Redis service as actions: a call that rejects throws.
use hanghae_plus_backend.Prelude.{ℕ, Option, none, some}
use hanghae_plus_backend.Prelude.Int.{ℤ}
use hanghae_plus_backend.App.{Action}
use hanghae_plus_backend.Database.Env.{Env}
use hanghae_plus_backend.Failure.{ok, err, plain, redis_failure}
use hanghae_plus_backend.Database.Redis.{Key}

module _ {env : Env} where
  unfoldable pub redis_write : (env.redis.Store → Option env.redis.Store) → Action env (Unit {0})
  redis_write call s = elim (call s.redis) [
    | none ↦ (err (plain redis_failure), s)
    | some store ↦ (ok tt, record s { redis = store })
  ]

  unfoldable pub zscore : Key → ℕ → Action env (Option ℤ)
  zscore key member s = elim (env.redis.zscore key member s.redis) [
    | none ↦ (err (plain redis_failure), s)
    | some score ↦ (ok score, s)
  ]

  unfoldable pub zadd : Key → ℤ → ℕ → Action env (Unit {0})
  zadd key score member = redis_write (env.redis.zadd key score member)

  unfoldable pub expire : Key → ℕ → Action env (Unit {0})
  expire key seconds = redis_write (env.redis.expire key seconds)

  unfoldable pub zrem : Key → ℕ → Action env (Unit {0})
  zrem key member = redis_write (env.redis.zrem key member)

  unfoldable pub redis_read : {A : Type 0} → (env.redis.Store → Option A) → Action env A
  redis_read call s = elim (call s.redis) [
    | none ↦ (err (plain redis_failure), s)
    | some found ↦ (ok found, s)
  ]

  -- A call that changes the store and answers a number.
  unfoldable pub redis_count : (env.redis.Store → Option (ℤ × env.redis.Store)) → Action env ℤ
  redis_count call s = elim (call s.redis) [
    | none ↦ (err (plain redis_failure), s)
    | some (n, store) ↦ (ok n, record s { redis = store })
  ]
