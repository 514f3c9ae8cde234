-- ===== src/RedisService/Refines.antt =====
-- Sequences of the commands on sorted sets of src/infrastructure/services/redis.service.ts, as the
-- rankings of products and the queues of coupons make them, and what they do to a table of scores.
use hanghae_plus_backend.Prelude.{
  ℕ, ◌≡◌, refl, String, ◌&&◌, Option, none, some, List, [], ◌∷◌, arith, if◌then◌else◌, str_eq,
}
use hanghae_plus_backend.Prelude.Int.{ℤ}
use hanghae_plus_backend.RedisService.Value.{Locks}
use hanghae_plus_backend.RedisService.Commands as Commands
use hanghae_plus_backend.RedisService.SortedSet as SortedSet
use hanghae_plus_backend.RedisService.SortedSet.{or_null}
use hanghae_plus_backend.RedisService.Scores.{
  IsSets, score, is_one, zadd-score, zrem-score, expire-score, del-score, zscore-score,
}

-- A command and the time at which it runs.
pub data Command : Type 0 where
  zadd : (now : ℕ) (key : String) (x : ℤ) (m : String) → Command
  zrem : (key m : String) → Command
  expire : (now : ℕ) (key : String) (seconds : ℕ) → Command
  del : List String → Command

abbrev drop_answer : {A : Type 0} → Option (A × Locks) → Option Locks
drop_answer none = none
drop_answer (some (a, locks)) = some locks

abbrev pub run : Command → Locks → Option Locks
run (zadd now key x m) locks = SortedSet.zadd now key x m locks
run (zrem key m) locks = drop_answer (SortedSet.zrem key m locks)
run (expire now key seconds) locks = some (Commands.expire now key seconds locks).1
run (del ks) locks = some (Commands.del ks locks).1

abbrev run_more : (Locks → Option Locks) → Option Locks → Option Locks
run_more next none = none
run_more next (some locks) = next locks

abbrev pub run_all : List Command → Locks → Option Locks
run_all [] locks = some locks
run_all (c ∷ cs) locks = run_more (run_all cs) (run c locks)

-- The abstract table: a score for a key and a member, or none.
abbrev pub Table : Type 0
Table = String → String → Option ℤ

abbrev pub apply : Command → Table → Table
apply (zadd now key x m) t j n = if str_eq key j && str_eq m n then some x else t j n
apply (zrem key m) t j n = if str_eq key j && str_eq m n then none else t j n
apply (expire now key seconds) t j n = t j n
apply (del ks) t j n = if is_one ks j then none else t j n

abbrev pub apply_all : List Command → Table → Table
apply_all [] t = t
apply_all (c ∷ cs) t = apply_all cs (apply c t)

abbrev Represents : Locks → Table → Type 0
Represents locks t = IsSets locks × ((j n : String) → score locks j n ≡ t j n)

run-Represents :
    (c : Command) (locks : Locks) (t : Table)
    → Represents locks t
    → (locks' : Locks) × (run c locks ≡ some locks') × Represents locks' (apply c t)
run-Represents (zadd now key x m) locks t (all, same) =
    let (locks', done, good, scores) = zadd-score now key x m locks all in
    (locks', done, (good, λ j n. ground (arith, scores j n, same j n)))
run-Represents (zrem key m) locks t (all, same) =
    let (locks', done, good, scores) = zrem-score key m locks all in
    (locks', ground (arith, done), (good, λ j n. ground (arith, scores j n, same j n)))
run-Represents (expire now key seconds) locks t (all, same) =
    let (good, scores) = expire-score now key seconds locks all in
    (
      (Commands.expire now key seconds locks).1,
      refl,
      (good, λ j n. ground (arith, scores j n, same j n)),
    )
run-Represents (del ks) locks t (all, same) =
    let (good, scores) = del-score ks locks all in
    ((Commands.del ks locks).1, refl, (good, λ j n. ground (arith, scores j n, same j n)))

run_all-Represents :
    (cs : List Command) (locks : Locks) (t : Table)
    → Represents locks t
    → (locks' : Locks) × (run_all cs locks ≡ some locks') × Represents locks' (apply_all cs t)
run_all-Represents [] locks t h = (locks, refl, h)
run_all-Represents (c ∷ cs) locks t h =
    let (locks₁, first, h₁) = run-Represents c locks t h in
    let (locks₂, rest, h₂) = run_all-Represents cs locks₁ (apply c t) h₁ in
    (locks₂, ground (arith, first, rest), h₂)

-- Whatever commands ZADD, ZREM, EXPIRE and DEL run on an empty store, at whatever times: none throws,
-- and afterwards the score of each member under each key is the one in the table that the same
-- commands make of an empty table. What ZSCORE then reads is that score, but null for a score of 0.
pub run_all-refines :
    (cs : List Command)
    → (locks : Locks) × (run_all cs [] ≡ some locks)
      × ((j n : String)
          → (score locks j n ≡ apply_all cs (λ _ _. none) j n)
            × (SortedSet.zscore j n locks ≡ some (or_null (apply_all cs (λ _ _. none) j n))))
run_all-refines cs =
    let nothing : IsSets [] = record { set_of = λ key lock h. ground arith } in
    let (locks, done, (good, scores)) =
      run_all-Represents cs [] (λ _ _. none) (nothing, λ j n. refl) in
    (locks, done, λ j n. (scores j n, ground (arith, scores j n, zscore-score j n locks good)))
