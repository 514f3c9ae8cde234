-- ===== src/Interceptor/Guard.antt =====
-- What the interceptors of src/common/interceptors that lock in Redis have in common: an acquisition, a body,
-- and the release of the same key on every path.
use hanghae_plus_backend.Prelude.{
  ℕ, ◌+◌, ◌≤◌, ◌≡◌, sym, ap, ◌∙◌, inl, inr, String, Bool, true, false, List, [], ◌∷◌, ◌++◌, arith,
  if◌then◌else◌,
}
use mathlib.Core.List.{append_assoc}
use hanghae_plus_backend.Async.{Async, Outcome, Thrown, async-cases, ◌>>=◌, throw, finally}
use hanghae_plus_backend.Lock.Interface.{LockService, LockOptions}
use hanghae_plus_backend.Interceptor.Trace.{
  Call, acquire_lock, release_lock, Trace, traced_locks, has_returned, tally, is_acquisition,
  is_unlock, is_handle,
}

tally-append :
    (kind : Call × Bool → Bool) (cs ds : List (Call × Bool))
    → tally kind (cs ++ ds) ≡ tally kind cs + tally kind ds
tally-append kind [] ds = omega arith
tally-append kind (c ∷ cs) ds = ground (arith, tally-append kind cs ds)

module _ {W : Type 0} where
  -- While a lock is held: some calls are made, of which at most `limit` are of the handler and none acquires
  -- or releases a lock.
  pub record Runs (limit : ℕ) (t t' : Trace W) : Type 0 where
    pub between : List (Call × Bool)
    pub calls : t'.calls ≡ between ++ t.calls
    pub acquisitions : tally is_acquisition between ≡ 0
    pub unlocks : tally is_unlock between ≡ 0
    pub handles : tally is_handle between ≤ limit

  pub Runs-trans : (m n : ℕ) (t t₁ t₂ : Trace W) → Runs m t t₁ → Runs n t₁ t₂ → Runs (m + n) t t₂
  Runs-trans m n t t₁ t₂ r q = record {
    between = q.between ++ r.between;
    calls =
        q.calls
        ∙ ap (λ cs. q.between ++ cs) r.calls
        ∙ sym (append_assoc q.between r.between t.calls);
    acquisitions =
        ground
          (arith, tally-append is_acquisition q.between r.between, q.acquisitions, r.acquisitions);
    unlocks = ground (arith, tally-append is_unlock q.between r.between, q.unlocks, r.unlocks);
    handles = ground (arith, tally-append is_handle q.between r.between, q.handles, r.handles);
  }

  -- Either the lock of the key was not acquired, and then this is the only call and an error is
  -- thrown; or it was, and then the calls are those of the body, of which at most `limit` are of the
  -- handler and none touches a lock, and the release of the same key as the last one.
  pub data Guarded {A : Type 0} (key : String) (limit : ℕ) (r : Outcome A) (t t' : Trace W)
      : Type 0 where
    refused :
        has_returned r ≡ false
        → t'.calls ≡ (acquire_lock key, false) ∷ t.calls
        → Guarded key limit r t t'
    held :
        (between : List (Call × Bool)) (freed : Bool)
        → t'.calls ≡ (release_lock key, freed) ∷ between ++ (acquire_lock key, true) ∷ t.calls
        → tally is_acquisition between ≡ 0
        → tally is_unlock between ≡ 0
        → tally is_handle between ≤ limit
        → Guarded key limit r t t'

  pub guard-Guarded :
      {A : Type 0} (locks : LockService W) (key : String) (options : LockOptions) (error : Thrown)
      (body : Async (Trace W) A) (limit : ℕ)
      → ((t : Trace W) → Runs limit t (body t).1)
      → (t : Trace W)
      → (let m = (traced_locks locks).acquire_lock key options >>= λ acquired.
            if acquired
            then finally body ((traced_locks locks).release_lock key)
            else throw error in
          Guarded key limit (m t).0 t (m t).1)
  guard-Guarded locks key options error body limit runs t =
      elim (async-cases (locks.acquire_lock key options) t.world) [
        | inl (e, w, threw) ↦ refused (ground arith) (ground arith)
        | inr (false, w, not_acquired) ↦ refused (ground arith) (ground arith)
        | inr (true, w, acquired) ↦
            (let t₁ : Trace W = record { calls = (acquire_lock key, true) ∷ t.calls; world = w } in
              let run = runs t₁ in
              elim (async-cases body t₁) [
                | inl (e, t₂, threw) ↦ elim (async-cases (locks.release_lock key) t₂.world) [
                  | inl (f, v, failed) ↦
                      held run.between false (ground (arith, run.calls)) run.acquisitions
                        run.unlocks run.handles
                  | inr (b, v, freed) ↦
                      held run.between true (ground (arith, run.calls)) run.acquisitions run.unlocks
                        run.handles
                ]
                | inr (a, t₂, done) ↦ elim (async-cases (locks.release_lock key) t₂.world) [
                  | inl (f, v, failed) ↦
                      held run.between false (ground (arith, run.calls)) run.acquisitions
                        run.unlocks run.handles
                  | inr (b, v, freed) ↦
                      held run.between true (ground (arith, run.calls)) run.acquisitions run.unlocks
                        run.handles
                ]
              ])
      ]
