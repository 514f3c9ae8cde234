-- ===== src/Interceptor/DbPessimistic.antt =====
-- src/common/interceptors/db-pessimistic-lock.interceptor.ts
use hanghae_plus_backend.Prelude.{Option, none, some, str_eq, if◌then◌else◌}
use hanghae_plus_backend.Async.{Async, Thrown, code, ◌>>=◌, ◌>>◌, return}
use hanghae_plus_backend.Interceptor.Options.{
  DbPessimisticLockOptions, given, mode_or_update, refusal, resource_busy,
}
use hanghae_plus_backend.Interceptor.DataSource.{DataSource, Rows, in_transaction}

module _ {W A Args : Type 0} (ds : DataSource W) (args : Args) (handle : Async W A) where
  abbrev pub rows : DbPessimisticLockOptions Args → Rows
  rows o = record { table = o.table; column = o.column; value = given o.value args }

  -- What is thrown for an error of the body: a lock that timed out is a bad request.
  abbrev pub translate : DbPessimisticLockOptions Args → Thrown → Thrown
  translate o error =
      if str_eq (code error) "ER_LOCK_WAIT_TIMEOUT"
      then refusal o.error_message resource_busy
      else error

  unfoldable pub execute_with_db_pessimistic_lock : DbPessimisticLockOptions Args → Async W A
  execute_with_db_pessimistic_lock o = in_transaction ds (translate o) (
      ds.lock_rows (rows o) (mode_or_update o.lock_mode)
      >> (handle >>= λ result. ds.commit_transaction >> return result))

  unfoldable pub intercept : Option (DbPessimisticLockOptions Args) → Async W A
  intercept none = handle
  intercept (some o) = execute_with_db_pessimistic_lock o
