-- ===== src/Interceptor/Pessimistic.antt =====
-- src/common/interceptors/pessimistic-lock.interceptor.ts
use hanghae_plus_backend.Prelude.{
  ℕ, zero, suc, ◌-◌, String, Bool, true, false, Option, none, some, ltb, if◌then◌else◌,
}
use Prim.Native.String.{◌++◌}
use hanghae_plus_backend.Async.{Async, Outcome, returns, ◌>>=◌, return, throw, finally}
use hanghae_plus_backend.RedisService.Map.{Map, has}
use hanghae_plus_backend.RedisService.Map as Map
use hanghae_plus_backend.Lock.Interface.{LockService, LockOptions}
use hanghae_plus_backend.Interceptor.Options.{
  PessimisticLockOptions, given, number_or, refusal, resource_busy,
}

-- The interceptor's own state in the world: its map of locks, the clock, and what happens while it waits.
pub record Process (W : Type 0) : Type 0 where
  pub now : W → ℕ
  pub locks : W → Map Bool
  pub store : Map Bool → W → W
  pub sleep : ℕ → W → W

module _ {W : Type 0} (process : Process W) where
  -- The loop of `acquirePessimisticLock`, on fuel: none is a loop that has not ended.
  unfoldable pub poll : (fuel : ℕ) (key : String) (start_time timeout : ℕ) → W → Option Bool × W
  poll zero key start_time timeout w = (none, w)
  poll (suc fuel) key start_time timeout w =
      let later = poll fuel key start_time timeout (process.sleep 10 w) in
      if ltb (process.now w - start_time) timeout
      then if has key (process.locks w)
        then later
        else (some true, process.store (Map.set key true (process.locks w)) w)
      else (some false, w)

  abbrev pub answer : Option Bool × W → Outcome Bool × W
  answer (none, w) = (returns false, w)
  answer (some b, w) = (returns b, w)

  -- One turn for each millisecond and one more are enough.
  unfoldable pub acquire_pessimistic_lock : String → (timeout : ℕ) → Async W Bool
  acquire_pessimistic_lock key timeout w = answer (poll (suc timeout) key (process.now w) timeout w)

  unfoldable pub release_pessimistic_lock : String → Async W (Unit {0})
  release_pessimistic_lock key w = return tt (process.store (Map.delete key (process.locks w)) w)

module _ {W A Args : Type 0} (locks : LockService W) (process : Process W) (args : Args)
    (handle : Async W A) where
  unfoldable pub generate_lock_key : PessimisticLockOptions Args → String
  generate_lock_key o = given o.key args

  -- What runs while the lock of Redis is held.
  unfoldable pub handle_locked : PessimisticLockOptions Args → Async W A
  handle_locked o =
      let lock_key = generate_lock_key o in
      acquire_pessimistic_lock process lock_key (number_or o.timeout 5000) >>= λ lock.
      if lock
      then finally handle (release_pessimistic_lock process lock_key)
      else throw (refusal o.error_message resource_busy)

  unfoldable pub execute_with_pessimistic_lock_and_redis_lock :
      PessimisticLockOptions Args → Async W A
  execute_with_pessimistic_lock_and_redis_lock o =
      let redis_lock_key = "global:" ++ generate_lock_key o in
      let options : LockOptions = record {
        ttl = some (number_or o.timeout 5000);
        retry_count = some 3;
        retry_delay = some 100;
      } in
      locks.acquire_lock redis_lock_key options >>= λ redis_lock_acquired.
      if redis_lock_acquired
      then finally (handle_locked o) (locks.release_lock redis_lock_key)
      else throw (refusal o.error_message resource_busy)

  unfoldable pub intercept : Option (PessimisticLockOptions Args) → Async W A
  intercept none = handle
  intercept (some o) = execute_with_pessimistic_lock_and_redis_lock o
