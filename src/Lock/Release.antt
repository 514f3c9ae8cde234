-- ===== src/Lock/Release.antt =====
-- Releasing and testing locks: what src/infrastructure/services/redis-distributed-lock.service.ts
-- leaves of them in the map of src/infrastructure/services/redis.service.ts.
use hanghae_plus_backend.Prelude.{
  ℕ, ◌≤◌, ◌<◌, ◌≡◌, ◌⊎◌, refl, ◌∙◌, ◌+◌, inl, inr, String, Bool, true, false, some, [], ◌∷◌, arith,
  ltb, Option-cases, Bool-cases,
}
use hanghae_plus_backend.Async.{returns}
use hanghae_plus_backend.RedisService.Map.{
  lookup, has, lookup-set, lookup-delete, str_eq_refl, has-lookup, lookup-has,
}
use hanghae_plus_backend.RedisService.Map as Map
use hanghae_plus_backend.RedisService.Value.{Lock, Locks, is_expired}
use hanghae_plus_backend.RedisService.Commands.{del, pttl, exists}
use hanghae_plus_backend.Lock.Interface.{LockOptions}
use hanghae_plus_backend.Lock.Memory.{Memory, memory}
use hanghae_plus_backend.Lock.Service.{default, acquire_lock, release_lock, is_locked, is_valid}
use hanghae_plus_backend.Lock.Acquire.{locked, acquire_lock-Memory}

delete_absent :
    (key : String) (locks : Locks) → has key locks ≡ false → Map.delete key locks ≡ locks
delete_absent key [] h = refl
delete_absent key ((j, l) ∷ locks) h = ground (arith, delete_absent key locks)

delete-set :
    (key : String) (l : Lock) (locks : Locks)
    → has key locks ≡ false
    → Map.delete key (Map.set key l locks) ≡ locks
delete-set key l [] h = ground (arith, str_eq_refl key)
delete-set key l ((j, k) ∷ locks) h = ground (arith, delete-set key l locks)

pub release_lock-Memory :
    (test : String → String → Bool) (key : String) (w : Memory)
    → release_lock (memory test) key w
      ≡ (returns (has key w.locks), record w { locks = Map.delete key w.locks })
unfolding release_lock del
release_lock-Memory test key w = elim (Bool-cases (has key w.locks)) [
  | inl there ↦ ground arith
  | inr missing ↦ ground arith
]

-- isLocked answers whether a lock is there whose time is still to come. Of another key or lock it changes
-- nothing, and a key of which it says no is gone, so that the lock can be acquired.
pub is_locked-Memory :
    (test : String → String → Bool) (key : String) (w : Memory)
    → ((l : Lock) × (lookup key w.locks ≡ some l)
        × (w.now < l.expires_at)
        × (is_locked (memory test) key w ≡ (returns true, w)))
      ⊎ (((l : Lock) → lookup key w.locks ≡ some l → l.expires_at ≤ w.now)
          × (is_locked (memory test) key w
              ≡ (returns false, record w { locks = Map.delete key w.locks })))
unfolding is_locked is_valid exists pttl del
is_locked-Memory test key w = elim (Option-cases (lookup key w.locks)) [
  | inl absent ↦
      inr (
        (λ l found. ground arith),
        ground (arith, delete_absent key w.locks, has-lookup key w.locks),
      )
  | inr (l, found) ↦ elim (Bool-cases (ltb w.now l.expires_at)) [
    | inl early ↦ inl (l, found, ground arith, ground arith)
    | inr late ↦ inr (
      (λ k same. ground arith),
      elim (Bool-cases (is_expired w.now l)) [
        | inl expired ↦ ground arith
        | inr now ↦ ground arith
      ],
    )
  ]
]

-- What others may do to a key between an acquisition, whose lock expires at `deadline`, and its
-- release: they try to acquire it, and they test it before the deadline; and the clock moves.
pub data Waits (test : String → String → Bool) (key : String) (deadline : ℕ) (w : Memory)
    : Memory → Type 0 where
  kept : Waits test key deadline w w
  attempt :
      {v : Memory} (others : LockOptions)
      → Waits test key deadline w v
      → Waits test key deadline w (acquire_lock (memory test) key others v).1
  look :
      {v : Memory}
      → v.now < deadline
      → Waits test key deadline w v
      → Waits test key deadline w (is_locked (memory test) key v).1
  pass :
      {v : Memory} (later : ℕ)
      → Waits test key deadline w v
      → Waits test key deadline w (record v { now = later })

taken-refused :
    (test : String → String → Bool) (key : String) (options : LockOptions) (w : Memory)
    → has key w.locks ≡ true
    → ((acquire_lock (memory test) key options w).0 ≡ returns false)
      × ((acquire_lock (memory test) key options w).1.locks ≡ w.locks)
taken-refused test key options w there = elim (acquire_lock-Memory test key options w) [
  | inl (free, _, _) ↦ ground (arith, there)
  | inr (_, failed) ↦ (ground (arith, failed), ground (arith, failed))
]

-- Before the deadline of the lock that is there, its test changes nothing.
look-locked :
    (test : String → String → Bool) (key : String) (l : Lock) (w : Memory)
    → lookup key w.locks ≡ some l
    → w.now < l.expires_at
    → (is_locked (memory test) key w).1.locks ≡ w.locks
look-locked test key l w found early = elim (is_locked-Memory test key w) [
  | inl (k, _, _, same) ↦ ground (arith, same)
  | inr (over, _) ↦ let late : l.expires_at ≤ w.now = over l found in absurd (omega arith)
]

Waits-locks :
    (test : String → String → Bool) (key : String) (l : Lock) (w : Memory) {v : Memory}
    → lookup key w.locks ≡ some l
    → Waits test key l.expires_at w v
    → v.locks ≡ w.locks
Waits-locks test key l w found kept = refl
Waits-locks test key l w found (attempt {v} others before) =
    let same = Waits-locks test key l w found before in
    let there : has key v.locks ≡ true = ground (arith, same, found, lookup-has key v.locks l) in
    (taken-refused test key others v there).1 ∙ same
Waits-locks test key l w found (look {v} early before) =
    let same = Waits-locks test key l w found before in
    look-locked test key l v (ground (arith, same, found)) early ∙ same
Waits-locks test key l w found (pass later before) = Waits-locks test key l w found before

-- After an acquisition, however often others try for the key, at whatever times, and however often
-- isLocked tests it before the time of the lock is over, every further attempt at the key fails, and
-- the release answers true and leaves the map as it was before the acquisition. The release does not
-- ask who holds the lock.
pub release_lock-acquire_lock :
    (test : String → String → Bool) (key : String) (options : LockOptions) (w : Memory)
    {w₁ w₂ : Memory}
    → acquire_lock (memory test) key options w ≡ (returns true, w₁)
    → Waits test key (w.now + default options.ttl 5000) w₁ w₂
    → (release_lock (memory test) key w₂ ≡ (returns true, record w { now = w₂.now }))
      × ((others : LockOptions) → (acquire_lock (memory test) key others w₂).0 ≡ returns false)
release_lock-acquire_lock test key options w {w₁} {w₂} acquired waits =
    elim (acquire_lock-Memory test key options w) [
      | inr (why, failed) ↦ ground (arith, failed)
      | inl (free, tries, done) ↦
          let l : Lock = locked w.now (default options.ttl 5000) in
          let held : w₁ ≡ record w { locks = Map.set key l w.locks } = ground (arith, done) in
          let found : lookup key w₁.locks ≡ some l =
            ground (arith, held, lookup-set key key l w.locks, str_eq_refl key) in
          let same : w₂.locks ≡ w₁.locks = Waits-locks test key l w₁ found waits in
          let there : has key w₂.locks ≡ true =
            ground (arith, same, found, lookup-has key w₂.locks l) in
          (
            ground (
              arith,
              there,
              same,
              held,
              delete-set key l w.locks free,
              release_lock-Memory test key w₂,
            ),
            λ others. (taken-refused test key others w₂ there).0,
          )
    ]
