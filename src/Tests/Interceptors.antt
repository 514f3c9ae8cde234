-- ===== src/Tests/Interceptors.antt =====
-- The theorems on the interceptors, around a handler that answers, on a table of one row with a version.
use hanghae_plus_backend.Prelude.{
  ℕ, suc, true, ◌+◌, ◌≡◌, arith, Bool, none, some, [], ◌∷◌, ◌==◌, if◌then◌else◌,
}
use hanghae_plus_backend.Async.{Async, return, returns}
use hanghae_plus_backend.RedisService.Map.{Map}
use hanghae_plus_backend.Lock.Memory.{Memory}
use hanghae_plus_backend.Interceptor.DataSource.{DataSource}
use hanghae_plus_backend.Interceptor.Options.{fixed, DbOptimisticLockOptions, OptimisticLockOptions}
use hanghae_plus_backend.Interceptor.Transaction.{execute_with_transaction}
use hanghae_plus_backend.Interceptor.Pessimistic.{Process, acquire_pessimistic_lock}
use hanghae_plus_backend.Interceptor.Trace.{
  connect, start_transaction, commit_transaction, release, handle, traced, traced_source, untouched,
}
use hanghae_plus_backend.Interceptor.Transacted.{Closed}
use hanghae_plus_backend.Interceptor.Closed.{execute_with_transaction-Closed}
use hanghae_plus_backend.Interceptor.Guard.{Guarded}
use hanghae_plus_backend.Interceptor.Polling.{Ended, acquire_pessimistic_lock-Ended}

-- The world is the version of the row.
abbrev one_row : DataSource ℕ
one_row = record {
  connect = return tt;
  start_transaction = return tt;
  commit_transaction = return tt;
  rollback_transaction = return tt;
  release = return tt;
  lock_rows = λ rows mode. return tt;
  select_version = λ rows column v. return (v ∷ []) v;
  increment_version = λ rows column old v. if v == old then return 1 (suc v) else return 0 v;
  sleep = λ ms v. v;
}

-- A handler that another request overtakes: the version has changed when it answers.
abbrev overtaken : Async ℕ ℕ
overtaken v = return 7 (suc v)

execute_with_transaction-Closed_example :
    (let m = execute_with_transaction (traced_source one_row) (traced handle overtaken) in
      Closed (m (untouched 1)).0 (untouched 1) (m (untouched 1)).1
      × ((a : ℕ)
          → (m (untouched 1)).0 ≡ returns a
          → (m (untouched 1)).1.calls
            ≡ (release, true)
              ∷ (commit_transaction, true)
              ∷ (handle, true)
              ∷ (start_transaction, true)
              ∷ (connect, true)
              ∷ []))
execute_with_transaction-Closed_example =
    execute_with_transaction-Closed one_row overtaken (untouched 1)

abbrev row_lock : DbOptimisticLockOptions ℕ
row_lock = record {
  table = "products";
  column = "id";
  value = fixed "1";
  version_column = none;
  max_retries = none;
  retry_delay = none;
  error_message = none;
}

abbrev order_lock : OptimisticLockOptions ℕ
order_lock = record {
  key = fixed "order:1";
  max_retries = none;
  retry_delay = none;
  error_message = none;
}

abbrev no_locks : Memory
no_locks = record { now = 1000; locks = [] }

abbrev answering : Async Memory ℕ
answering = return 7

abbrev waiting : ℕ → Memory → Memory
waiting ms w = record w { now = w.now + ms }

-- The clock of a process and its map of locks.
abbrev clock_and_locks : Process (ℕ × Map Bool)
clock_and_locks = record {
  now = λ w. w.0;
  locks = λ w. w.1;
  store = λ locks w. (w.0, locks);
  sleep = λ ms w. (w.0 + ms, w.1);
}

acquire_pessimistic_lock-Ended_example :
    (b : Bool) × (w₁ : ℕ × Map Bool) × (acquire_pessimistic_lock clock_and_locks "order:1" 25
        (1000, ("order:1", true) ∷ [])
      ≡ (returns b, w₁))
    × Ended clock_and_locks "order:1" 1000 25 (some b, w₁)
acquire_pessimistic_lock-Ended_example =
    acquire_pessimistic_lock-Ended clock_and_locks (λ ms w. omega arith) "order:1" 25
      (1000, ("order:1", true) ∷ [])
