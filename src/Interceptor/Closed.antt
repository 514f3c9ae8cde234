-- ===== src/Interceptor/Closed.antt =====
-- That the interceptors of the database leave no transaction open: on every path through
-- src/common/interceptors each transaction that has begun is committed or rolled back, and its
-- runner released.
use hanghae_plus_backend.Prelude.{◌≡◌, inl, inr, true, ◌∷◌, arith}
use hanghae_plus_backend.Async.{Async, returns, async-cases, ◌>>=◌, ◌>>◌, return}
use hanghae_plus_backend.Interceptor.DataSource.{DataSource, in_transaction}
use hanghae_plus_backend.Interceptor.Transaction.{execute_with_transaction}
use hanghae_plus_backend.Interceptor.Options.{DbPessimisticLockOptions, mode_or_update}
use hanghae_plus_backend.Interceptor.DbPessimistic.{
  execute_with_db_pessimistic_lock, translate, rows,
}
use hanghae_plus_backend.Interceptor.Trace.{
  connect, start_transaction, commit_transaction, release, lock_rows, handle, Trace, traced,
  traced_source,
}
use hanghae_plus_backend.Interceptor.Transacted.{Closed, commit-Inside, in_transaction-Closed}

-- What transaction.interceptor.ts calls on the path on which it returns a result.
execute_with_transaction_calls :
    {W A : Type 0} (ds : DataSource W) (handler : Async W A) (t : Trace W) (a : A)
    → (let m = execute_with_transaction (traced_source ds) (traced handle handler) in
        (m t).0 ≡ returns a
        → (m t).1.calls
          ≡ (release, true)
            ∷ (commit_transaction, true)
            ∷ (handle, true)
            ∷ (start_transaction, true)
            ∷ (connect, true)
            ∷ t.calls)
unfolding execute_with_transaction in_transaction
execute_with_transaction_calls ds handler t a h = elim (async-cases ds.connect t.world) [
  | inl (e, w, threw) ↦ ground arith
  | inr (_, w₁, connected) ↦ elim (async-cases ds.start_transaction w₁) [
    | inl (e, w, threw) ↦ ground arith
    | inr (_, w₂, started) ↦ elim (async-cases handler w₂) [
      | inl (e, w₃, threw) ↦ elim (async-cases ds.rollback_transaction w₃) [
        | inl (f, w₄, unrolled) ↦ elim (async-cases ds.release w₄) [
          | inl (g, w, kept) ↦ ground arith
          | inr (_, w, released) ↦ ground arith
        ]
        | inr (_, w₄, rolled) ↦ elim (async-cases ds.release w₄) [
          | inl (g, w, kept) ↦ ground arith
          | inr (_, w, released) ↦ ground arith
        ]
      ]
      | inr (b, w₃, returned) ↦ elim (async-cases ds.commit_transaction w₃) [
        | inl (e, w₄, threw) ↦ elim (async-cases ds.rollback_transaction w₄) [
          | inl (f, w₅, unrolled) ↦ elim (async-cases ds.release w₅) [
            | inl (g, w, kept) ↦ ground arith
            | inr (_, w, released) ↦ ground arith
          ]
          | inr (_, w₅, rolled) ↦ elim (async-cases ds.release w₅) [
            | inl (g, w, kept) ↦ ground arith
            | inr (_, w, released) ↦ ground arith
          ]
        ]
        | inr (_, w₄, done) ↦ elim (async-cases ds.release w₄) [
          | inl (g, w, kept) ↦ ground arith
          | inr (_, w, released) ↦ ground arith
        ]
      ]
    ]
  ]
]

-- Around whatever handler and however the database behaves: transaction.interceptor.ts opens one
-- connection and begins at most one transaction, in which the handler runs at most once. A
-- transaction that has begun is committed or its rollback called, and its runner released. On the
-- path that returns a result it has called connect, startTransaction, the handler, commitTransaction
-- and release, in this order and no other, and each of them has returned.
pub execute_with_transaction-Closed :
    {W A : Type 0} (ds : DataSource W) (handler : Async W A) (t : Trace W)
    → (let m = execute_with_transaction (traced_source ds) (traced handle handler) in
        Closed (m t).0 t (m t).1
        × ((a : A)
            → (m t).0 ≡ returns a
            → (m t).1.calls
              ≡ (release, true)
                ∷ (commit_transaction, true)
                ∷ (handle, true)
                ∷ (start_transaction, true)
                ∷ (connect, true)
                ∷ t.calls))
unfolding execute_with_transaction
execute_with_transaction-Closed ds handler t = (
  in_transaction-Closed ds (λ error. error)
      (traced handle handler >>= λ result. (traced_source ds).commit_transaction >> return result)
      (commit-Inside ds handler) t,
  execute_with_transaction_calls ds handler t,
)

-- db-pessimistic-lock.interceptor.ts does the same around the handler, which runs only after the
-- rows are locked.
pub execute_with_db_pessimistic_lock-Closed :
    {W A Args : Type 0} (ds : DataSource W) (args : Args) (handler : Async W A)
    (o : DbPessimisticLockOptions Args) (t : Trace W)
    → (let m = execute_with_db_pessimistic_lock (traced_source ds) args (traced handle handler) o in
        Closed (m t).0 t (m t).1)
unfolding execute_with_db_pessimistic_lock
execute_with_db_pessimistic_lock-Closed ds args handler o t =
    in_transaction-Closed ds (translate ds args handler o)
      ((traced_source ds).lock_rows (rows ds args handler o) (mode_or_update o.lock_mode)
        >> (traced handle handler >>= λ result.
            (traced_source ds).commit_transaction >> return result))
      (λ u.
        elim (async-cases (ds.lock_rows (rows ds args handler o) (mode_or_update o.lock_mode))
          u.world) [
            | inl (e, w, threw) ↦ record {
              connects = ground arith;
              begins = ground arith;
              releases = ground arith;
              handles = ground arith;
              ends = ground arith;
              last = λ h. ground arith;
            }
            | inr (_, w, locked) ↦
                (let i =
                    commit-Inside ds handler
                      (record { calls = (lock_rows, true) ∷ u.calls; world = w }) in
                  record {
                    connects = ground (arith, i.connects);
                    begins = ground (arith, i.begins);
                    releases = ground (arith, i.releases);
                    handles = ground (arith, i.handles);
                    ends = ground (arith, i.ends);
                    last = λ h. ground (arith, i.last);
                  })
          ])
      t
