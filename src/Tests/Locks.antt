-- ===== src/Tests/Locks.antt =====
-- The theorems on the lock service and on the map that stands in for Redis, with a lock that a
-- client takes and another client waits for.
use hanghae_plus_backend.Prelude.{
  ℕ, ◌+◌, ◌-◌, ◌*◌, ◌<◌, ◌≤◌, ◌≡◌, ◌≢◌, ◌⊎◌, refl, sym, length, get_elem?, arith, String, true,
  false, none, some, List, [], ◌∷◌, str_eq,
}
use hanghae_plus_backend.Prelude.Int.{ℤ, pos, negsuc}
use hanghae_plus_backend.Async.{returns}
use hanghae_plus_backend.RedisService.Map.{lookup, has}
use hanghae_plus_backend.RedisService.Map as Map
use hanghae_plus_backend.RedisService.Value.{Lock, Locks, json}
use hanghae_plus_backend.RedisService.Commands.{set, exists, pttl}
use hanghae_plus_backend.RedisService.SortedSet.{zscore, Reply, zrange, zcard, zrank, or_null}
use hanghae_plus_backend.RedisService.Scores.{IsSetValue, IsSets, score}
use hanghae_plus_backend.RedisService.Refines.{Command, run_all, apply_all, run_all-refines}
use hanghae_plus_backend.RedisService.Sorted.{IsSorted}
use hanghae_plus_backend.RedisService.Rank.{Ranked, ListsMembers, ListsScores, zrange-IsSorted}
use hanghae_plus_backend.Lock.Interface.{LockOptions}
use hanghae_plus_backend.Lock.Memory.{Memory, memory}
use hanghae_plus_backend.Lock.Service.{
  default, sleep, turn, turns, is_valid, acquire_lock, release_lock, is_locked,
}
use hanghae_plus_backend.Lock.Acquire.{locked, acquire_lock-Memory}
use hanghae_plus_backend.Lock.Release.{
  Waits, kept, attempt, look, pass, release_lock-acquire_lock, is_locked-Memory,
}
use hanghae_plus_backend.Lock.Clients.{IsExclusive, System, Reach, acquire, here, next}
use hanghae_plus_backend.Lock.Exclusion.{Reach-IsExclusive}

abbrev empty : Memory
empty = record { now = 1000; locks = [] }

abbrev usual : LockOptions
usual = record { ttl = none; retry_count = none; retry_delay = none }

-- The map with the lock of order 1.
abbrev taken : Memory
taken = record empty { locks = Map.set "order:1" (locked 1000 5000) [] }

takes : acquire_lock (memory str_eq) "order:1" usual empty ≡ (returns true, taken)
unfolding acquire_lock turns turn set
takes = refl

acquire_lock-Memory_example :
    ((has "order:1" taken.locks ≡ false)
      × (default usual.retry_count 3 ≢ 0)
      × (acquire_lock (memory str_eq) "order:1" usual taken ≡ (
        returns true,
        record taken {
          locks = Map.set "order:1" (locked taken.now (default usual.ttl 5000)) taken.locks;
        },
      )))
    ⊎ (((has "order:1" taken.locks ≡ true) ⊎ (default usual.retry_count 3 ≡ 0))
        × (acquire_lock (memory str_eq) "order:1" usual taken ≡ (
          returns false,
          record taken {
            now = taken.now + (default usual.retry_count 3 - 1) * default usual.retry_delay 100;
          },
        )))
acquire_lock-Memory_example = acquire_lock-Memory str_eq "order:1" usual taken

-- Another client has tried three times, it has tested the lock, and a minute has passed.
abbrev waited : Memory
waited = record taken { now = 61000 }

waits : Waits str_eq "order:1" 6000 taken waited
unfolding acquire_lock turns turn sleep is_locked is_valid set exists pttl
waits =
    pass 61000
      (look {v = record taken { now = 1200 }} (omega arith) (attempt {v = taken} usual kept))

release_lock-acquire_lock_example :
    (release_lock (memory str_eq) "order:1" waited ≡ (returns true, record empty { now = 61000 }))
    × ((others : LockOptions)
        → (acquire_lock (memory str_eq) "order:1" others waited).0 ≡ returns false)
release_lock-acquire_lock_example =
    release_lock-acquire_lock str_eq "order:1" usual empty takes waits

is_locked-Memory_example :
    ((l : Lock) × (lookup "order:1" taken.locks ≡ some l)
      × (taken.now < l.expires_at)
      × (is_locked (memory str_eq) "order:1" taken ≡ (returns true, taken)))
    ⊎ (((l : Lock) → lookup "order:1" taken.locks ≡ some l → l.expires_at ≤ taken.now)
        × (is_locked (memory str_eq) "order:1" taken
            ≡ (returns false, record taken { locks = Map.delete "order:1" taken.locks })))
is_locked-Memory_example = is_locked-Memory str_eq "order:1" taken

-- One client takes the lock.
abbrev one_holder : System
one_holder = record {
  shared = taken;
  holders = record { client = 1; key = "order:1"; deadline = 6000 } ∷ [];
}

one_step : Reach str_eq (record { shared = empty; holders = [] }) one_holder
one_step = next here (acquire 1 "order:1" usual taken takes (omega arith))

Reach-IsExclusive_example : IsExclusive one_holder
Reach-IsExclusive_example = Reach-IsExclusive str_eq empty one_step

-- Two users queue, and one leaves.
abbrev queueing : List Command
queueing =
    Command.zadd 1000 "queue" (pos 20) "1"
    ∷ Command.zadd 1001 "queue" (pos 10) "2"
    ∷ Command.zrem "queue" "1"
    ∷ []

run_all-refines_example :
    (locks : Locks) × (run_all queueing [] ≡ some locks)
    × ((j n : String)
        → (score locks j n ≡ apply_all queueing (λ _ _. none) j n)
          × (zscore j n locks ≡ some (or_null (apply_all queueing (λ _ _. none) j n))))
run_all-refines_example = run_all-refines queueing

abbrev line : Lock
line = record { value = json (("1", pos 20) ∷ ("2", pos 10) ∷ []); expires_at = 9000 }

abbrev queue : Locks
queue = ("queue", line) ∷ []

queue-IsSets : IsSets queue
queue-IsSets = record {
  set_of = λ key lock h.
      let same : line ≡ lock = ground arith in
      let good : IsSetValue line.value = (refl, (refl, tt)) in rw (sym same) good;
}

zrange-IsSorted_example :
    (es : List (String × ℤ)) × (replies : List Reply) × (pairs : List Reply) × IsSorted es
    × (zrange "queue" (pos 0) (negsuc 0) false queue ≡ some replies)
    × (zrange "queue" (pos 0) (negsuc 0) true queue ≡ some pairs)
    × (zcard "queue" queue ≡ some (length es))
    × ListsMembers es replies
    × ListsScores es pairs
    × ((m : String) → Ranked "queue" queue es m)
    × ((i : ℕ) (m : String) (x : ℤ)
        → get_elem? es i ≡ some (m, x)
        → (score queue "queue" m ≡ some x) × (zrank "queue" m queue ≡ some (some i)))
zrange-IsSorted_example = zrange-IsSorted "queue" queue queue-IsSets
