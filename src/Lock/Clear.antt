-- ===== src/Lock/Clear.antt =====
-- Listing and clearing locks: getLockKeys and clearAllLocks of
-- src/infrastructure/services/redis-distributed-lock.service.ts on the map in memory.
use hanghae_plus_backend.Prelude.{
  ℕ, ◌≡◌, refl, inl, inr, String, Bool, true, false, not, ◌&&◌, Option, none, some, List, [], ◌∷◌,
  arith, if◌then◌else◌, ltb, str_eq, eq_iff, Bool-cases, length,
}
use hanghae_plus_backend.Async.{returns}
use hanghae_plus_backend.RedisService.Map.{lookup, has, IsMap, lookup-delete, str_eq_refl}
use hanghae_plus_backend.RedisService.Map as Map
use hanghae_plus_backend.RedisService.Value.{Lock, Locks, is_expired}
use hanghae_plus_backend.RedisService.Commands.{del, keys}
use hanghae_plus_backend.RedisService.Scores.{is_one}
use hanghae_plus_backend.Lock.Memory.{Memory, memory}
use hanghae_plus_backend.Lock.Service.{get_lock_keys, clear_all_locks}

-- Whether a key is in the map, not expired, and matches.
abbrev is_listed : ℕ → (String → Bool) → Option Lock → String → Bool
is_listed now test none key = false
is_listed now test (some l) key = test key && not (is_expired now l)

keys-is_one :
    (now : ℕ) (test : String → Bool) (j : String) (locks : Locks)
    → IsMap locks
    → is_one (keys now test locks) j ≡ is_listed now test (lookup j locks) j
unfolding keys
keys-is_one now test j [] h = refl
keys-is_one now test j ((k, l) ∷ locks) h =
    ground (arith, keys-is_one now test j locks h.1, eq_iff k j)

-- Each of the keys stands in the map, and once in the list.
abbrev AllThere : List String → Locks → Type 0
AllThere [] locks = Unit
AllThere (k ∷ ks) locks = (has k locks ≡ true) × (is_one ks k ≡ false) × AllThere ks locks

has-delete :
    (j k : String) (locks : Locks) → str_eq k j ≡ false → has j (Map.delete k locks) ≡ has j locks
has-delete j k [] h = refl
has-delete j k ((i, l) ∷ locks) h =
    ground (arith, has-delete j k locks h, eq_iff i k, eq_iff i j, eq_iff k j)

delete-AllThere :
    (k : String) (ks : List String) (locks : Locks)
    → is_one ks k ≡ false
    → AllThere ks locks
    → AllThere ks (Map.delete k locks)
delete-AllThere k [] locks h a = tt
delete-AllThere k (j ∷ ks) locks h (there, once, more) = (
  ground (arith, has-delete j k locks, eq_iff j k, eq_iff k j),
  once,
  delete-AllThere k ks locks (ground arith) more,
)

more-AllThere :
    (k : String) (l : Lock) (ks : List String) (locks : Locks)
    → AllThere ks locks
    → AllThere ks ((k, l) ∷ locks)
more-AllThere k l [] locks a = tt
more-AllThere k l (j ∷ ks) locks (there, once, more) =
    (ground arith, once, more-AllThere k l ks locks more)

del-count : (ks : List String) (locks : Locks) → AllThere ks locks → (del ks locks).0 ≡ length ks
unfolding del
del-count [] locks a = refl
del-count (k ∷ ks) locks (there, once, more) =
    ground (arith, del-count ks (Map.delete k locks) (delete-AllThere k ks locks once more))

keys-AllThere :
    (now : ℕ) (test : String → Bool) (locks : Locks)
    → IsMap locks
    → AllThere (keys now test locks) locks
unfolding keys
keys-AllThere now test [] h = tt
keys-AllThere now test ((k, l) ∷ locks) h =
    let more = more-AllThere k l (keys now test locks) locks (keys-AllThere now test locks h.1) in
    elim (Bool-cases (test k && not (is_expired now l))) [
      | inl listed ↦
          rw listed
            (ground (arith, str_eq_refl k), ground (arith, keys-is_one now test k locks h.1), more)
      | inr other ↦ rw other more
    ]

lookup-del :
    (ks : List String) (locks : Locks) (j : String)
    → lookup j (del ks locks).1 ≡ (if is_one ks j then none else lookup j locks)
unfolding del
lookup-del [] locks j = refl
lookup-del (k ∷ ks) locks j =
    ground (arith, lookup-del ks (Map.delete k locks) j, lookup-delete j k locks)

nothing_listed : (ks : List String) (j : String) → ltb 0 (length ks) ≡ false → is_one ks j ≡ false
nothing_listed [] j h = refl
nothing_listed (k ∷ ks) j h = ground arith

-- clearAllLocks answers the number of the keys that getLockKeys lists: those that match and have not expired.
-- Exactly these are gone afterwards, and all other locks are as before, the expired ones too.
pub clear_all_locks-Memory :
    (test : String → String → Bool) (pattern : String) (w : Memory)
    → IsMap w.locks
    → (ks : List String) × (w₁ : Memory) × (get_lock_keys (memory test) pattern w ≡ (returns ks, w))
      × (clear_all_locks (memory test) pattern w ≡ (returns (length ks), w₁))
      × ((j : String)
          → lookup j w₁.locks ≡ (
              if is_listed w.now (test pattern) (lookup j w.locks) j
              then none
              else lookup j w.locks))
unfolding get_lock_keys clear_all_locks
clear_all_locks-Memory test pattern w h =
    let ks : List String = keys w.now (test pattern) w.locks in
    let count : (del ks w.locks).0 ≡ length ks =
      del-count ks w.locks (keys-AllThere w.now (test pattern) w.locks h) in
    let left : (j : String)
        → lookup j (del ks w.locks).1 ≡ (
            if is_listed w.now (test pattern) (lookup j w.locks) j
            then none
            else lookup j w.locks) =
      λ j. ground (arith, lookup-del ks w.locks j, keys-is_one w.now (test pattern) j w.locks h) in
    elim (Bool-cases (ltb 0 (length ks))) [
      | inl some_keys ↦
          (ks, record w { locks = (del ks w.locks).1 }, refl, ground (arith, count), left)
      | inr no_keys ↦ (
        ks,
        w,
        refl,
        ground arith,
        λ j.
            ground
              (arith, keys-is_one w.now (test pattern) j w.locks h, nothing_listed ks j no_keys),
      )
    ]
