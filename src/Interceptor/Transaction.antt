-- ===== src/Interceptor/Transaction.antt =====
-- src/common/interceptors/transaction.interceptor.ts
use hanghae_plus_backend.Prelude.{Bool, true, false, Option, none, some}
use hanghae_plus_backend.Async.{Async, ◌>>=◌, ◌>>◌, return}
use hanghae_plus_backend.Interceptor.DataSource.{DataSource, in_transaction}

module _ {W A : Type 0} (ds : DataSource W) (handle : Async W A) where
  unfoldable pub execute_with_transaction : Async W A
  execute_with_transaction =
      in_transaction ds (λ error. error)
        (handle >>= λ result. ds.commit_transaction >> return result)

  -- The metadata of the handler is true under the decorator, and else undefined.
  unfoldable pub intercept : (is_transactional : Option Bool) → Async W A
  intercept none = handle
  intercept (some false) = handle
  intercept (some true) = execute_with_transaction
