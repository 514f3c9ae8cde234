-- ===== src/Lock/Interface.antt =====
-- src/application/interfaces/services/redis-distributed-lock-service.interface.ts: what the interceptors
-- are given of the lock service.
use hanghae_plus_backend.Prelude.{ℕ, String, Bool, Option, List}
use hanghae_plus_backend.Prelude.Int.{ℤ}
use hanghae_plus_backend.Async.{Async}

-- An option that is absent is none.
pub record LockOptions : Type 0 where
  pub ttl : Option ℕ
  pub retry_count : Option ℕ
  pub retry_delay : Option ℕ

pub record LockService (W : Type 0) : Type 0 where
  pub acquire_lock : String → LockOptions → Async W Bool
  pub release_lock : String → Async W Bool
  pub get_lock_ttl : String → Async W ℤ
  pub is_locked : String → Async W Bool
  pub get_lock_keys : String → Async W (List String)
  pub clear_all_locks : String → Async W ℕ
