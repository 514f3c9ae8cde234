-- ===== src/Lock/Redis.antt =====
-- What the lock service calls: src/application/interfaces/services/redis-service.interface.ts for keys that
-- hold locks, and `setTimeout`. The world is whatever these calls read and change, other clients included.
use hanghae_plus_backend.Prelude.{ℕ, String, Option, List}
use hanghae_plus_backend.Prelude.Int.{ℤ}
use hanghae_plus_backend.Async.{Async}
use hanghae_plus_backend.RedisService.Commands.{SetArg}

pub record LockRedis (W : Type 0) : Type 0 where
  pub set : (key value : String) → List SetArg → Async W (Option String)
  pub del : List String → Async W ℕ
  pub pttl : String → Async W ℤ
  pub exists : String → Async W ℕ
  pub keys : String → Async W (List String)
  -- What happens while the service sleeps for some milliseconds.
  pub sleep : ℕ → W → W
