-- ===== src/RedisService/Expiry.antt =====
-- What src/infrastructure/services/redis.service.ts answers of a key after it was set, until and after
-- its time; and what its counters count.
use hanghae_plus_backend.Prelude.{
  ℕ, ◌+◌, ◌-◌, ◌<◌, ◌≤◌, ◌≡◌, ◌⊎◌, refl, inl, inr, String, true, false, ◌&&◌, Option, none, some,
  List, arith, str_eq, Bool-cases, Option-cases,
}
use hanghae_plus_backend.Prelude.Int.{ℤ, pos, ◌+ℤ◌, ◌-ℤ◌}
use hanghae_plus_backend.RedisService.Map.{
  Map, lookup, has, IsMap, lookup-set, lookup-delete, str_eq_refl, has-lookup, lookup-has,
}
use hanghae_plus_backend.RedisService.Map as Map
use hanghae_plus_backend.RedisService.Value.{
  Value, number, Lock, Locks, is_expired, parse_int, to_string,
}
use hanghae_plus_backend.RedisService.Commands.{
  SetArg, ttl_of, has_nx, set, get, exists, pttl, decr, incr, value_of, store_number,
}

-- What GET, EXISTS and PTTL say at a time of a key that holds a value until another time.
pub data Holds (key : String) (value : Value) (until : ℕ) (now : ℕ) (locks : Locks) : Type 0 where
  in_time :
      now ≤ until
      → get now key locks ≡ some value
      → exists now key locks ≡ (true, locks)
      → pttl now key locks ≡ pos (until - now)
      → Holds key value until now locks
  too_late :
      until < now
      → get now key locks ≡ none
      → (exists now key locks).0 ≡ false
      → pttl now key locks ≡ pos 0
      → Holds key value until now locks

found-Holds :
    (key : String) (lock : Lock) (now : ℕ) (locks : Locks)
    → lookup key locks ≡ some lock
    → Holds key lock.value lock.expires_at now locks
unfolding get exists pttl
found-Holds key lock now locks found = elim (Bool-cases (is_expired now lock)) [
  | inl late ↦ too_late (ground arith) (ground arith) (ground arith) (ground arith)
  | inr early ↦ in_time (ground arith) (ground arith) (ground arith) (ground arith)
]

-- SET answers OK unless NX is asked for and the key is there, expired or not. If it answers OK, the key holds
-- the value until the time to live has passed, and no other key changes; else nothing changes.
pub set-Holds :
    (now : ℕ) (key : String) (value : Value) (args : List SetArg) (locks : Locks)
    → ((set now key value args locks).0 ≡ some "OK"
        × (has_nx args && has key locks ≡ false)
        × ((later : ℕ) → Holds key value (now + ttl_of args) later (set now key value args locks).1)
        × ((j : String)
            → str_eq key j ≡ false
            → lookup j (set now key value args locks).1 ≡ lookup j locks))
      ⊎ ((set now key value args locks ≡ (none, locks))
          × (has_nx args ≡ true)
          × (has key locks ≡ true))
unfolding set
set-Holds now key value args locks = elim (Bool-cases (has_nx args && has key locks)) [
  | inl taken ↦ inr (ground arith, ground arith, ground arith)
  | inr free ↦
      (let lock : Lock = record { value = value; expires_at = now + ttl_of args } in
        let stored : (set now key value args locks).1 ≡ Map.set key lock locks = ground arith in
        inl (
          ground arith,
          free,
          (λ later. rw stored (
              found-Holds key lock later (Map.set key lock locks)
                (ground (arith, lookup-set key key lock locks, str_eq_refl key)))),
          λ j other. ground (arith, lookup-set j key lock locks),
        ))
]

-- EXISTS answers whether GET reads a value; a key of which it says no is gone afterwards, so that SET with NX
-- takes it, and every other key stays.
pub exists-get :
    (now : ℕ) (key : String) (locks : Locks)
    → (((exists now key locks).0 ≡ true)
        × (exists now key locks ≡ (true, locks))
        × ((v : Value) × (get now key locks ≡ some v)))
      ⊎ (((exists now key locks).0 ≡ false)
          × (get now key locks ≡ none)
          × (has key (exists now key locks).1 ≡ false)
          × ((j : String)
              → str_eq key j ≡ false
              → lookup j (exists now key locks).1 ≡ lookup j locks))
unfolding exists get
exists-get now key locks = elim (Option-cases (lookup key locks)) [
  | inl absent ↦
      inr
        (ground arith, ground arith, ground (arith, has-lookup key locks), λ j other. ground arith)
  | inr (lock, found) ↦ elim (Bool-cases (is_expired now lock)) [
    | inl late ↦ inr (
      ground arith,
      ground arith,
      ground (
        arith,
        has-lookup key (Map.delete key locks),
        lookup-delete key key locks,
        str_eq_refl key,
      ),
      λ j other. ground (arith, lookup-delete j key locks),
    )
    | inr early ↦ inl (ground arith, ground arith, (lock.value, ground arith))
  ]
]

-- The number that DECR and INCR find under a key: 0 if it is absent, and none if it is NaN.
abbrev pub counter : String → Locks → Option ℤ
counter key locks = parse_int (value_of (lookup key locks))

parse-to_string : (n : ℤ) → parse_int (some (to_string (some n))) ≡ some n
parse-to_string n = refl

-- What a command that counts does: it answers the new count, which INCR and DECR find later, GET reads it
-- for 30 seconds, and no other key changes.
pub data Counts (now : ℕ) (key : String) (count : ℤ) (locks : Locks) (run : Option ℤ × Locks)
    : Type 0 where
  counts :
      run.0 ≡ some count
      → counter key run.1 ≡ some count
      → ((later : ℕ) → Holds key (number count) (now + 30000) later run.1)
      → ((j : String) → str_eq key j ≡ false → lookup j run.1 ≡ lookup j locks)
      → Counts now key count locks run

stored-Counts :
    (now : ℕ) (key : String) (count : ℤ) (locks : Locks)
    → Counts now key count locks (store_number now key (some count) locks)
stored-Counts now key count locks =
    let lock : Lock = record { value = number count; expires_at = now + 30000 } in
    let found : lookup key (Map.set key lock locks) ≡ some lock =
      ground (arith, lookup-set key key lock locks, str_eq_refl key) in
    counts refl (ground (arith, found))
      (λ later. found-Holds key lock later (Map.set key lock locks) found)
      (λ j other. ground (arith, lookup-set j key lock locks))

-- DECR and INCR count down and up by one from the number they find, be it expired or not.
pub counter-Counts :
    (now : ℕ) (key : String) (n : ℤ) (locks : Locks)
    → counter key locks ≡ some n
    → Counts now key (n -ℤ pos 1) locks (decr now key locks)
      × Counts now key (n +ℤ pos 1) locks (incr now key locks)
unfolding decr incr
counter-Counts now key n locks h = (
  rw h (stored-Counts now key (n -ℤ pos 1) locks),
  rw h (stored-Counts now key (n +ℤ pos 1) locks),
)
