-- ===== src/Interceptor/Guarded.antt =====
-- That src/common/interceptors/optimistic-lock.interceptor.ts runs the handler only under its lock,
-- and releases what it acquired on every path.
use hanghae_plus_backend.Prelude.{ℕ}
use hanghae_plus_backend.Async.{Async}
use hanghae_plus_backend.Lock.Interface.{LockService}
use hanghae_plus_backend.Interceptor.Options.{OptimisticLockOptions}
use hanghae_plus_backend.Interceptor.Optimistic as Optimistic
use hanghae_plus_backend.Interceptor.Trace.{Trace}

module _ {W A Args : Type 0} (locks : LockService W) (sleep : ℕ → W → W) (args : Args)
    (handler : Async W A) (o : OptimisticLockOptions Args) where
  abbrev pub traced_sleep : ℕ → Trace W → Trace W
  traced_sleep ms t = record t { world = sleep ms t.world }
