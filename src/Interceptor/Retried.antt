-- ===== src/Interceptor/Retried.antt =====
-- The loop of src/common/interceptors/db-optimistic-lock.interceptor.ts: how often it tries, what it leaves
-- behind, and what it answers.
use hanghae_plus_backend.Prelude.{ℕ, zero, suc, ◌+◌, ◌≤◌, ◌≡◌, true, false}
use hanghae_plus_backend.Async.{Async, Outcome, Thrown, message, throws}
use hanghae_plus_backend.Interceptor.Options.{DbOptimisticLockOptions, refusal}
use hanghae_plus_backend.Interceptor.DataSource.{DataSource}
use hanghae_plus_backend.Interceptor.DbOptimistic.{conflict, modified}
use hanghae_plus_backend.Interceptor.Trace.{
  Trace, has_returned, tally, is_connect, is_begin, is_end, is_release, is_handle, is_committed,
}
use hanghae_plus_backend.Interceptor.Transacted.{Closed}

module _ {W A Args : Type 0} (ds : DataSource W) (args : Args) (handler : Async W A)
    (o : DbOptimisticLockOptions Args) where
  -- At most some number of attempts, one after the other: each but the last has found a conflict.
  pub data Attempts : (count : ℕ) (t t' : Trace W) → Type 0 where
    none : (t : Trace W) → Attempts zero t t
    last : (left : ℕ) (r : Outcome A) (t t' : Trace W) → Closed r t t' → Attempts (suc left) t t'
    again :
        (left : ℕ) (e : Thrown) (t t₁ t₂ t' : Trace W)
        → message e ≡ conflict
        → Closed {A = A} (throws e) t t₁
        → t₂.calls ≡ t₁.calls
        → Attempts left t₂ t'
        → Attempts (suc left) t t'

  -- After at most `count` turns: as many transactions are over and released as have begun.
  pub record Tried (count : ℕ) (r : Outcome A) (t t' : Trace W) : Type 0 where
    pub attempts : Attempts count t t'
    pub opened : ℕ
    pub connects : tally is_connect t'.calls ≤ count + tally is_connect t.calls
    pub begins : tally is_begin t'.calls ≡ opened + tally is_begin t.calls
    pub ends : tally is_end t'.calls ≡ opened + tally is_end t.calls
    pub releases : tally is_release t'.calls ≡ opened + tally is_release t.calls
    pub handles : tally is_handle t'.calls ≤ count + tally is_handle t.calls
    pub committed : has_returned r ≡ true → is_committed t'.calls ≡ true
    pub refused : has_returned r ≡ false → r ≡ throws (refusal o.error_message modified)
