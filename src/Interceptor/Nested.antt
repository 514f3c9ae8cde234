-- ===== src/Interceptor/Nested.antt =====
-- That src/common/interceptors/pessimistic-lock.interceptor.ts runs the handler only under both of
-- its locks, and releases the lock of Redis on every path.
use hanghae_plus_backend.Prelude.{
  ℕ, zero, suc, ◌≡◌, ◌⊎◌, refl, inl, inr, String, Bool, true, false, Option, none, some, [], ◌∷◌,
  arith,
}
use Prim.Native.String.{◌++◌}
use hanghae_plus_backend.Async.{Async, async-cases}
use hanghae_plus_backend.Lock.Interface.{LockService}
use hanghae_plus_backend.Interceptor.Options.{
  PessimisticLockOptions, given, number_or, resource_busy, refusal,
}
use hanghae_plus_backend.Interceptor.Pessimistic as Pessimistic
use hanghae_plus_backend.Interceptor.Pessimistic.{
  Process, poll, acquire_pessimistic_lock, release_pessimistic_lock, handle_locked,
  execute_with_pessimistic_lock_and_redis_lock,
}
use hanghae_plus_backend.Interceptor.Trace.{handle, Trace, traced, traced_locks}
use hanghae_plus_backend.Interceptor.Guard.{Runs, Guarded, guard-Guarded}

module _ {W A Args : Type 0} (locks : LockService W) (process : Process W) (args : Args)
    (handler : Async W A) (o : PessimisticLockOptions Args) where
  abbrev pub traced_process : Process (Trace W)
  traced_process = record {
    now = λ t. process.now t.world;
    locks = λ t. process.locks t.world;
    store = λ m t. record t { world = process.store m t.world };
    sleep = λ ms t. record t { world = process.sleep ms t.world };
  }

  poll-cases :
      (p : Option Bool × Trace W)
      → ((t : Trace W) × (p ≡ (none, t))) ⊎ ((b : Bool) × (t : Trace W) × (p ≡ (some b, t)))
  poll-cases (none, t) = inl (t, refl)
  poll-cases (some b, t) = inr (b, t, refl)

  poll_calls :
      (fuel : ℕ) (key : String) (start timeout : ℕ) (t : Trace W)
      → (poll traced_process fuel key start timeout t).1.calls ≡ t.calls
  unfolding poll
  poll_calls zero key start timeout t = refl
  poll_calls (suc fuel) key start timeout t =
      ground
        (arith, poll_calls fuel key start timeout (record t { world = process.sleep 10 t.world }))

  acquire_calls :
      (key : String) (timeout : ℕ) (t : Trace W)
      → (acquire_pessimistic_lock traced_process key timeout t).1.calls ≡ t.calls
  unfolding acquire_pessimistic_lock
  acquire_calls key timeout t =
      elim (poll-cases (poll traced_process (suc timeout) key (process.now t.world) timeout t)) [
        | inl (t₁, ended) ↦
            ground (arith, ended, poll_calls (suc timeout) key (process.now t.world) timeout t)
        | inr (b, t₁, ended) ↦
            ground (arith, ended, poll_calls (suc timeout) key (process.now t.world) timeout t)
      ]

  handle_locked-Runs :
      (t : Trace W)
      → Runs 1 t
          (handle_locked (traced_locks locks) traced_process args (traced handle handler) o t).1
  unfolding handle_locked release_pessimistic_lock
  handle_locked-Runs t =
      let key : String =
        Pessimistic.generate_lock_key (traced_locks locks) traced_process args
          (traced handle handler) o in
      let same = acquire_calls key (number_or o.timeout 5000) t in
      elim (async-cases (acquire_pessimistic_lock traced_process key (number_or o.timeout 5000))
        t) [
          | inl (e, t₁, threw) ↦ record {
            between = [];
            calls = ground (arith, same);
            acquisitions = refl;
            unlocks = refl;
            handles = omega arith;
          }
          | inr (false, t₁, taken) ↦ record {
            between = [];
            calls = ground (arith, same);
            acquisitions = refl;
            unlocks = refl;
            handles = omega arith;
          }
          | inr (true, t₁, got) ↦ elim (async-cases handler t₁.world) [
            | inl (e, w, threw) ↦ record {
              between = (handle, false) ∷ [];
              calls = ground (arith, same);
              acquisitions = refl;
              unlocks = refl;
              handles = omega arith;
            }
            | inr (a, w, done) ↦ record {
              between = (handle, true) ∷ [];
              calls = ground (arith, same);
              acquisitions = refl;
              unlocks = refl;
              handles = omega arith;
            }
          ]
        ]

  -- Likewise pessimistic-lock.interceptor.ts runs the handler at most once, and only if it has
  -- acquired the lock of Redis and then its own; on every path its last call releases the lock of
  -- Redis if it has acquired it.
  pub execute_with_pessimistic_lock-Guarded :
      (t : Trace W)
      → (let m =
            execute_with_pessimistic_lock_and_redis_lock
              (traced_locks locks)
              traced_process
              args
              (traced handle handler)
              o in
          Guarded ("global:" ++ given o.key args) 1 (m t).0 t (m t).1)
  unfolding execute_with_pessimistic_lock_and_redis_lock Pessimistic.generate_lock_key
  execute_with_pessimistic_lock-Guarded t =
      guard-Guarded locks ("global:" ++ given o.key args)
        (record {
          ttl = some (number_or o.timeout 5000);
          retry_count = some 3;
          retry_delay = some 100;
        })
        (refusal o.error_message resource_busy)
        (handle_locked (traced_locks locks) traced_process args (traced handle handler) o) 1
        handle_locked-Runs t
