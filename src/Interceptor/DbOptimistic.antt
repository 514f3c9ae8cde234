-- ===== src/Interceptor/DbOptimistic.antt =====
-- src/common/interceptors/db-optimistic-lock.interceptor.ts
use hanghae_plus_backend.Prelude.{
  ℕ, zero, suc, String, ◌&&◌, Option, none, some, List, [], ◌∷◌, ltb, ◌==◌, str_eq, if◌then◌else◌,
}
use hanghae_plus_backend.Async.{Async, plain_error, message, ◌>>=◌, ◌>>◌, return, throw, catch}
use hanghae_plus_backend.Interceptor.Options.{
  DbOptimisticLockOptions, given, number_or, text_or, refusal,
}
use hanghae_plus_backend.Interceptor.DataSource.{DataSource, Rows, in_transaction}

abbrev pub conflict : String
conflict = "낙관적 락 충돌"

abbrev pub modified : String
modified = "데이터가 다른 사용자에 의해 수정되었습니다. 다시 시도해주세요."

-- What an attempt comes to: a result, another attempt, or the end of the loop.
pub data Turn (A : Type 0) : Type 0 where
  finished : A → Turn A
  again stopped : Turn A

module _ {W A Args : Type 0} (ds : DataSource W) (args : Args) (handle : Async W A) where
  abbrev pub rows : DbOptimisticLockOptions Args → Rows
  rows o = record { table = o.table; column = o.column; value = given o.value args }

  abbrev pub version : DbOptimisticLockOptions Args → String
  version o = text_or o.version_column "version"

  -- The handler between the reading of a version and its increment.
  unfoldable pub update_version : DbOptimisticLockOptions Args → List ℕ → Async W A
  update_version o [] = throw (plain_error "레코드를 찾을 수 없습니다.")
  update_version o (current ∷ more) = handle >>= λ method_result.
      ds.increment_version (rows o) (version o) current >>= λ affected_rows.
      if affected_rows == 0
      then throw (plain_error conflict)
      else ds.commit_transaction >> return method_result

  unfoldable pub attempt : DbOptimisticLockOptions Args → Async W A
  attempt o =
      in_transaction ds (λ error. error)
        (ds.select_version (rows o) (version o) >>= λ result. update_version o result)

  -- A turn of the loop after which `left` are to go.
  unfoldable pub turn : DbOptimisticLockOptions Args → (left : ℕ) → Async W (Turn A)
  turn o left = catch (attempt o >>= λ result. return (finished result)) (λ error w.
      if str_eq (message error) conflict && ltb 0 left
      then return again (ds.sleep (number_or o.retry_delay 100) w)
      else return stopped w)

  unfoldable pub turns : DbOptimisticLockOptions Args → (count : ℕ) → Async W A
  turns o zero = throw (refusal o.error_message modified)
  turns o (suc left) =
      let more = turns o left in
      turn o left >>= λ outcome. elim outcome [
        | finished result ↦ return result
        | again ↦ more
        | stopped ↦ throw (refusal o.error_message modified)
      ]

  unfoldable pub execute_with_db_optimistic_lock : DbOptimisticLockOptions Args → Async W A
  execute_with_db_optimistic_lock o = turns o (number_or o.max_retries 3)

  unfoldable pub intercept : Option (DbOptimisticLockOptions Args) → Async W A
  intercept none = handle
  intercept (some o) = execute_with_db_optimistic_lock o
