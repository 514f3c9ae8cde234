-- ===== src/Interceptor/Polling.antt =====
-- The loop of acquirePessimisticLock in src/common/interceptors/pessimistic-lock.interceptor.ts:
-- that it ends, when, and with what answer.
use hanghae_plus_backend.Prelude.{
  ℕ, zero, suc, ◌+◌, ◌-◌, ◌≤◌, ◌<◌, ◌≡◌, refl, inl, inr, String, Bool, true, false, Option, none,
  some, arith, ltb, Bool-cases,
}
use hanghae_plus_backend.Async.{returns}
use hanghae_plus_backend.RedisService.Map.{Map, has}
use hanghae_plus_backend.RedisService.Map as Map
use hanghae_plus_backend.Interceptor.Pessimistic.{Process, poll, answer, acquire_pessimistic_lock}

-- How an acquisition ends: with the lock, which was free within the timeout; or without it, once the
-- timeout has passed, and then it has written nothing itself.
pub data Ended {W : Type 0} (process : Process W) (key : String) (start timeout : ℕ)
    : Option Bool × W → Type 0 where
  acquired :
      (w : W)
      → process.now w - start < timeout
      → has key (process.locks w) ≡ false
      → Ended process key start timeout
          (some true, process.store (Map.set key true (process.locks w)) w)
  timed_out :
      (w : W) → timeout ≤ process.now w - start → Ended process key start timeout (some false, w)

Ended-returns :
    {W : Type 0} {process : Process W} (key : String) (start timeout : ℕ) (p : Option Bool × W)
    → Ended process key start timeout p
    → (b : Bool) × (w₁ : W) × (answer process p ≡ (returns b, w₁))
      × Ended process key start timeout (some b, w₁)
Ended-returns key start timeout (none, w) e = elim e [ ]
Ended-returns key start timeout (some b, w) e = (b, w, refl, e)

module _ {W : Type 0} (process : Process W)
    (sleeps : (ms : ℕ) (w : W) → process.now w + ms ≤ process.now (process.sleep ms w)) where
  poll-Ended :
      (fuel : ℕ) (key : String) (start timeout : ℕ) (w : W)
      → 0 < fuel
      → start ≤ process.now w
      → start + timeout < process.now w + fuel
      → Ended process key start timeout (poll process fuel key start timeout w)
  unfolding poll
  poll-Ended zero key start timeout w some_fuel began enough = ground arith
  poll-Ended (suc fuel) key start timeout w some_fuel began enough =
      elim (Bool-cases (ltb (process.now w - start) timeout)) [
        | inr late ↦ rw late (timed_out w (ground arith))
        | inl early ↦ elim (Bool-cases (has key (process.locks w))) [
          | inl taken ↦
              rw (early, taken)
                (poll-Ended fuel key start timeout (process.sleep 10 w) (ground arith)
                  (ground (arith, sleeps 10 w)) (ground (arith, sleeps 10 w)))
          | inr free ↦ rw (early, free) (acquired w (ground arith) free)
        ]
      ]

  -- Where a timer waits at least as long as it is told, the loop ends: the fuel that
  -- acquire_pessimistic_lock gives is enough. It answers true at a time within the timeout at which
  -- the key was free, and has then set it; and false only once the timeout has passed.
  pub acquire_pessimistic_lock-Ended :
      (key : String) (timeout : ℕ) (w : W)
      → (b : Bool) × (w₁ : W) × (acquire_pessimistic_lock process key timeout w ≡ (returns b, w₁))
        × Ended process key (process.now w) timeout (some b, w₁)
  unfolding acquire_pessimistic_lock
  acquire_pessimistic_lock-Ended key timeout w =
      Ended-returns key (process.now w) timeout
        (poll process (suc timeout) key (process.now w) timeout w)
        (poll-Ended (suc timeout) key (process.now w) timeout w (omega arith) (omega arith)
          (omega arith))
