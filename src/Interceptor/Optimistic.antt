-- ===== src/Interceptor/Optimistic.antt =====
-- src/common/interceptors/optimistic-lock.interceptor.ts
use hanghae_plus_backend.Prelude.{
  ℕ, zero, suc, String, Bool, ◌&&◌, ◌||◌, Option, none, some, ltb, str_eq, if◌then◌else◌,
}
use Prim.Native.String.{◌++◌}
use hanghae_plus_backend.Async.{
  Async, Thrown, bad_request, name, message, includes, ◌>>=◌, return, throw, catch, finally,
}
use hanghae_plus_backend.Lock.Interface.{LockService, LockOptions}
use hanghae_plus_backend.Interceptor.Options.{
  OptimisticLockOptions, given, number_or, refusal, resource_busy,
}
use hanghae_plus_backend.Interceptor.DbOptimistic.{Turn, finished, again, stopped}

abbrev pub conflicting : String
conflicting = "동시 요청으로 인한 충돌이 발생했습니다. 다시 시도해주세요."

unfoldable pub is_optimistic_lock_exception : Thrown → Bool
is_optimistic_lock_exception error =
    str_eq (name error) "OptimisticLockException"
    || (includes (message error) "optimistic lock" || includes (message error) "version conflict")

module _ {W A Args : Type 0} (locks : LockService W) (sleep : ℕ → W → W) (args : Args)
    (handle : Async W A) where
  unfoldable pub generate_lock_key : OptimisticLockOptions Args → String
  generate_lock_key o = given o.key args

  -- A turn of the loop after which `left` are to go.
  unfoldable pub turn : OptimisticLockOptions Args → (left : ℕ) → Async W (Turn A)
  turn o left = catch (handle >>= λ result. return (finished result)) (λ error w.
      if is_optimistic_lock_exception error && ltb 0 left
      then return again (sleep (number_or o.retry_delay 100) w)
      else return stopped w)

  unfoldable pub turns : OptimisticLockOptions Args → (count : ℕ) → Async W A
  turns o zero = throw (refusal o.error_message conflicting)
  turns o (suc left) =
      let more = turns o left in
      turn o left >>= λ outcome. elim outcome [
        | finished result ↦ return result
        | again ↦ more
        | stopped ↦ throw (refusal o.error_message conflicting)
      ]

  unfoldable pub execute_with_optimistic_lock_and_redis_lock :
      OptimisticLockOptions Args → Async W A
  execute_with_optimistic_lock_and_redis_lock o =
      let redis_lock_key = "global:" ++ generate_lock_key o in
      let options : LockOptions = record {
        ttl = some 10000;
        retry_count = some 3;
        retry_delay = some 100;
      } in
      locks.acquire_lock redis_lock_key options >>= λ redis_lock_acquired.
      if redis_lock_acquired
      then finally (turns o (number_or o.max_retries 3)) (locks.release_lock redis_lock_key)
      else throw (bad_request resource_busy)

  unfoldable pub intercept : Option (OptimisticLockOptions Args) → Async W A
  intercept none = handle
  intercept (some o) = execute_with_optimistic_lock_and_redis_lock o
