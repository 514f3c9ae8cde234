-- ===== src/Interceptor/DataSource.antt =====
-- What the interceptors call of the package typeorm, and of the language's timers: a query runner's
-- connection, its transaction and its queries, each of which may throw.
use hanghae_plus_backend.Prelude.{ℕ, String, List}
use hanghae_plus_backend.Async.{Async, Thrown, ◌>>◌, catch, finally, throw}
use hanghae_plus_backend.Interceptor.Options.{LockMode}

-- The rows that a query is about: a table, and a value of one of its columns.
pub record Rows : Type 0 where
  pub table : String
  pub column : String
  pub value : String

pub record DataSource (W : Type 0) : Type 0 where
  pub connect : Async W (Unit {0})
  pub start_transaction : Async W (Unit {0})
  pub commit_transaction : Async W (Unit {0})
  pub rollback_transaction : Async W (Unit {0})
  pub release : Async W (Unit {0})
  -- `SELECT * FROM table WHERE column = ? FOR UPDATE`, or `FOR SHARE`
  pub lock_rows : Rows → LockMode → Async W (Unit {0})
  -- `SELECT version_column as version`: the versions of the rows.
  pub select_version : Rows → (version_column : String) → Async W (List ℕ)
  -- `UPDATE … SET version_column = version_column + 1 WHERE … AND version_column = ?`: the number of
  -- rows that were changed.
  pub increment_version : Rows → (version_column : String) → (version : ℕ) → Async W ℕ
  -- What happens while the program waits for some milliseconds.
  pub sleep : ℕ → W → W

-- A body in a transaction of a query runner of its own, as the three interceptors of the database run it: on
-- whatever the body throws, the transaction is rolled back, and `translate` says what is thrown then.
unfoldable pub in_transaction :
    {W A : Type 0} → DataSource W → (translate : Thrown → Thrown) → Async W A → Async W A
in_transaction ds translate body =
    ds.connect
    >> (ds.start_transaction
        >> finally (catch body (λ error. ds.rollback_transaction >> throw (translate error)))
            ds.release)
