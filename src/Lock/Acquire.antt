-- ===== src/Lock/Acquire.antt =====
-- Who gets the lock of src/infrastructure/services/redis-distributed-lock.service.ts, and when.
use hanghae_plus_backend.Prelude.{
  ℕ, zero, suc, ◌+◌, ◌-◌, ◌*◌, ◌≡◌, ◌≢◌, ◌⊎◌, refl, inl, inr, String, Bool, true, false, arith,
  if◌then◌else◌, ltb, Bool-cases,
}
use hanghae_plus_backend.Async.{returns}
use hanghae_plus_backend.RedisService.Map.{
  lookup, has, lookup-set, str_eq_refl, has-lookup, lookup-has,
}
use hanghae_plus_backend.RedisService.Map as Map
use hanghae_plus_backend.RedisService.Value.{Lock, text}
use hanghae_plus_backend.RedisService.Commands.{set}
use hanghae_plus_backend.Lock.Interface.{LockOptions}
use hanghae_plus_backend.Lock.Memory.{Memory, memory}
use hanghae_plus_backend.Lock.Service.{default, sleep, turn, turns, acquire_lock}

-- The lock that a client writes under a key.
abbrev pub locked : (now ttl : ℕ) → Lock
locked now ttl = record { value = text "locked"; expires_at = now + ttl }

module _ (test : String → String → Bool) (key : String) (ttl delay : ℕ) where
  turn_free :
      (left : ℕ) (w : Memory)
      → has key w.locks ≡ false
      → turn (memory test) key ttl delay left w
        ≡ (returns true, record w { locks = Map.set key (locked w.now ttl) w.locks })
  unfolding turn sleep set
  turn_free left w free = ground arith

  turn_taken :
      (left : ℕ) (w : Memory)
      → has key w.locks ≡ true
      → turn (memory test) key ttl delay left w
        ≡ (returns false, record w { now = w.now + (if ltb 0 left then delay else 0) })
  unfolding turn sleep set
  turn_taken left w taken = elim (Bool-cases (ltb 0 left)) [
    | inl more ↦ ground arith
    | inr last ↦ ground arith
  ]

  suc_times : (n d : ℕ) → suc n * d ≡ d + n * d
  suc_times n d = omega arith

  turns_taken :
      (left : ℕ) (w : Memory)
      → has key w.locks ≡ true
      → turns (memory test) key ttl delay left w
        ≡ (returns false, record w { now = w.now + (left - 1) * delay })
  unfolding turns
  turns_taken zero w taken = ground arith
  turns_taken (suc zero) w taken = ground (arith, turn_taken 0 w taken)
  turns_taken (suc (suc left)) w taken =
      let next : Memory = record w { now = w.now + delay } in
      ground (
        arith,
        turn_taken (suc left) w taken,
        turns_taken (suc left) next taken,
        suc_times left delay,
      )

turns_free :
    (test : String → String → Bool) (key : String) (ttl delay count : ℕ) (w : Memory)
    → has key w.locks ≡ false
    → ((has key w.locks ≡ false)
        × (count ≢ 0)
        × (turns (memory test) key ttl delay count w
            ≡ (returns true, record w { locks = Map.set key (locked w.now ttl) w.locks })))
      ⊎ (((has key w.locks ≡ true) ⊎ (count ≡ 0))
          × (turns (memory test) key ttl delay count w
              ≡ (returns false, record w { now = w.now + (count - 1) * delay })))
unfolding turns
turns_free test key ttl delay zero w free = inr (inr refl, ground arith)
turns_free test key ttl delay (suc left) w free =
    inl (free, (λ z. ground arith), ground (arith, turn_free test key ttl delay left w free))

-- A client alone gets the lock of a key exactly if the key is not there at all, expired or not, and
-- it may try at least once. Then nothing else changes, and the lock is written with the time at
-- which it expires. Without the lock it has slept after each attempt but the last, and the map is
-- as before.
pub acquire_lock-Memory :
    (test : String → String → Bool) (key : String) (options : LockOptions) (w : Memory)
    → ((has key w.locks ≡ false)
        × (default options.retry_count 3 ≢ 0)
        × (acquire_lock (memory test) key options w ≡ (
          returns true,
          record w { locks = Map.set key (locked w.now (default options.ttl 5000)) w.locks },
        )))
      ⊎ (((has key w.locks ≡ true) ⊎ (default options.retry_count 3 ≡ 0))
          × (acquire_lock (memory test) key options w ≡ (
            returns false,
            record w {
              now = w.now + (default options.retry_count 3 - 1) * default options.retry_delay 100;
            },
          )))
unfolding acquire_lock
acquire_lock-Memory test key options w =
    let delay : ℕ = default options.retry_delay 100 in
    let ttl : ℕ = default options.ttl 5000 in
    elim (Bool-cases (has key w.locks)) [
      | inl taken ↦
          inr (inl taken, turns_taken test key ttl delay (default options.retry_count 3) w taken)
      | inr free ↦ turns_free test key ttl delay (default options.retry_count 3) w free
    ]
