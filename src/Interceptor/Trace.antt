-- ===== src/Interceptor/Trace.antt =====
-- The calls that an interceptor makes, in a record beside the world: every call of a data source or
-- a handler is noted with whether it returned. Nothing else of the calls changes.
use hanghae_plus_backend.Prelude.{
  String, ℕ, suc, Bool, true, false, ◌&&◌, List, [], ◌∷◌, if◌then◌else◌,
}
use hanghae_plus_backend.Async.{Async, Outcome, throws, returns}
use hanghae_plus_backend.Lock.Interface.{LockService}
use hanghae_plus_backend.Interceptor.DataSource.{DataSource}

pub data Call : Type 0 where
  connect start_transaction commit_transaction rollback_transaction release lock_rows select_version
        increment_version handle :
      Call
  acquire_lock release_lock : (key : String) → Call

-- The calls, the latest first, each with whether it returned.
pub record Trace (W : Type 0) : Type 0 where
  pub calls : List (Call × Bool)
  pub world : W

abbrev pub has_returned : {A : Type 0} → Outcome A → Bool
has_returned (throws e) = false
has_returned (returns a) = true

abbrev is_true : Outcome Bool → Bool
is_true (throws e) = false
is_true (returns b) = b

module _ {W : Type 0} where
  abbrev pub traced : {A : Type 0} → Call → Async W A → Async (Trace W) A
  traced call m t =
      let (r, w) = m t.world in (r, record { calls = (call, has_returned r) ∷ t.calls; world = w })

  -- A call that is not noted.
  abbrev quiet : {A : Type 0} → Async W A → Async (Trace W) A
  quiet m t = let (r, w) = m t.world in (r, record t { world = w })

  abbrev pub traced_source : DataSource W → DataSource (Trace W)
  traced_source ds = record {
    connect = traced connect ds.connect;
    start_transaction = traced start_transaction ds.start_transaction;
    commit_transaction = traced commit_transaction ds.commit_transaction;
    rollback_transaction = traced rollback_transaction ds.rollback_transaction;
    release = traced release ds.release;
    lock_rows = λ rows mode. traced lock_rows (ds.lock_rows rows mode);
    select_version = λ rows column. traced select_version (ds.select_version rows column);
    increment_version =
        λ rows column v. traced increment_version (ds.increment_version rows column v);
    sleep = λ ms t. record t { world = ds.sleep ms t.world };
  }

  -- An acquisition is noted with whether the lock was acquired.
  abbrev traced_acquire : String → Async W Bool → Async (Trace W) Bool
  traced_acquire key m t =
      let (r, w) = m t.world in
      (r, record { calls = (acquire_lock key, is_true r) ∷ t.calls; world = w })

  abbrev pub traced_locks : LockService W → LockService (Trace W)
  traced_locks locks = record {
    acquire_lock = λ key options. traced_acquire key (locks.acquire_lock key options);
    release_lock = λ key. traced (release_lock key) (locks.release_lock key);
    get_lock_ttl = λ key. quiet (locks.get_lock_ttl key);
    is_locked = λ key. quiet (locks.is_locked key);
    get_lock_keys = λ pattern. quiet (locks.get_lock_keys pattern);
    clear_all_locks = λ pattern. quiet (locks.clear_all_locks pattern);
  }

  abbrev pub untouched : W → Trace W
  untouched w = record { calls = []; world = w }

-- Whether a call is a connection; a transaction that has begun; one that is over, by a commit that returned
-- or by a rollback; a release; a run of the handler.
abbrev pub is_connect : Call × Bool → Bool
is_connect (connect, b) = true
is_connect (start_transaction, b) = false
is_connect (commit_transaction, b) = false
is_connect (rollback_transaction, b) = false
is_connect (release, b) = false
is_connect (lock_rows, b) = false
is_connect (select_version, b) = false
is_connect (increment_version, b) = false
is_connect (handle, b) = false
is_connect (acquire_lock key, b) = false
is_connect (release_lock key, b) = false

abbrev pub is_begin : Call × Bool → Bool
is_begin (connect, b) = false
is_begin (start_transaction, b) = b
is_begin (commit_transaction, b) = false
is_begin (rollback_transaction, b) = false
is_begin (release, b) = false
is_begin (lock_rows, b) = false
is_begin (select_version, b) = false
is_begin (increment_version, b) = false
is_begin (handle, b) = false
is_begin (acquire_lock key, b) = false
is_begin (release_lock key, b) = false

abbrev pub is_end : Call × Bool → Bool
is_end (connect, b) = false
is_end (start_transaction, b) = false
is_end (commit_transaction, b) = b
is_end (rollback_transaction, b) = true
is_end (release, b) = false
is_end (lock_rows, b) = false
is_end (select_version, b) = false
is_end (increment_version, b) = false
is_end (handle, b) = false
is_end (acquire_lock key, b) = false
is_end (release_lock key, b) = false

abbrev pub is_release : Call × Bool → Bool
is_release (connect, b) = false
is_release (start_transaction, b) = false
is_release (commit_transaction, b) = false
is_release (rollback_transaction, b) = false
is_release (release, b) = true
is_release (lock_rows, b) = false
is_release (select_version, b) = false
is_release (increment_version, b) = false
is_release (handle, b) = false
is_release (acquire_lock key, b) = false
is_release (release_lock key, b) = false

abbrev pub is_handle : Call × Bool → Bool
is_handle (connect, b) = false
is_handle (start_transaction, b) = false
is_handle (commit_transaction, b) = false
is_handle (rollback_transaction, b) = false
is_handle (release, b) = false
is_handle (lock_rows, b) = false
is_handle (select_version, b) = false
is_handle (increment_version, b) = false
is_handle (handle, b) = true
is_handle (acquire_lock key, b) = false
is_handle (release_lock key, b) = false

-- Whether a call is an acquisition of a lock that answered true, or the release of a lock.
abbrev pub is_acquisition : Call × Bool → Bool
is_acquisition (connect, b) = false
is_acquisition (start_transaction, b) = false
is_acquisition (commit_transaction, b) = false
is_acquisition (rollback_transaction, b) = false
is_acquisition (release, b) = false
is_acquisition (lock_rows, b) = false
is_acquisition (select_version, b) = false
is_acquisition (increment_version, b) = false
is_acquisition (handle, b) = false
is_acquisition (acquire_lock key, b) = b
is_acquisition (release_lock key, b) = false

abbrev pub is_unlock : Call × Bool → Bool
is_unlock (connect, b) = false
is_unlock (start_transaction, b) = false
is_unlock (commit_transaction, b) = false
is_unlock (rollback_transaction, b) = false
is_unlock (release, b) = false
is_unlock (lock_rows, b) = false
is_unlock (select_version, b) = false
is_unlock (increment_version, b) = false
is_unlock (handle, b) = false
is_unlock (acquire_lock key, b) = false
is_unlock (release_lock key, b) = true

-- How many calls are of a kind.
abbrev pub tally : (Call × Bool → Bool) → List (Call × Bool) → ℕ
tally kind [] = 0
tally kind (c ∷ cs) = let rest = tally kind cs in if kind c then suc rest else rest

-- Whether a call is a commit that returned.
abbrev pub is_commit : Call × Bool → Bool
is_commit (connect, b) = false
is_commit (start_transaction, b) = false
is_commit (commit_transaction, b) = b
is_commit (rollback_transaction, b) = false
is_commit (release, b) = false
is_commit (lock_rows, b) = false
is_commit (select_version, b) = false
is_commit (increment_version, b) = false
is_commit (handle, b) = false
is_commit (acquire_lock key, b) = false
is_commit (release_lock key, b) = false

abbrev pub is_commit_last : List (Call × Bool) → Bool
is_commit_last [] = false
is_commit_last (c ∷ cs) = is_commit c

-- Whether the latest calls are a commit and a release that returned.
abbrev pub is_committed : List (Call × Bool) → Bool
is_committed [] = false
is_committed (c ∷ cs) = is_release c && (c.1 && is_commit_last cs)
