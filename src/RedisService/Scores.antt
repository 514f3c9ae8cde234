-- ===== src/RedisService/Scores.antt =====
-- The sorted sets of src/infrastructure/services/redis.service.ts against their abstract view: a score
-- for each key and member, or none.
use hanghae_plus_backend.Prelude.{
  ℕ, ◌+◌, ◌*◌, ◌≡◌, refl, sym, inl, inr, String, Bool, true, false, ◌&&◌, Option, none, some, List,
  [], ◌∷◌, arith, if◌then◌else◌, str_eq, eq_iff, Bool-cases, Option-cases,
}
use hanghae_plus_backend.Prelude.Int.{ℤ}
use hanghae_plus_backend.RedisService.Map.{
  Map, lookup, has, IsMap, from_entries, lookup-set, lookup-delete, set-IsMap, delete-IsMap,
  from_entries-IsMap, lookup-from_entries,
}
use hanghae_plus_backend.RedisService.Map as Map
use hanghae_plus_backend.RedisService.Value.{Value, text, number, json, Lock, Locks}
use hanghae_plus_backend.RedisService.Commands.{del, expire}
use hanghae_plus_backend.RedisService.SortedSet.{zadd, zrem, zscore, or_null}

-- A stored set has each member once.
abbrev pub IsSetValue : Value → Type 0
IsSetValue (text s) = ⊥
IsSetValue (number n) = ⊥
IsSetValue (json es) = IsMap es

-- All that is stored are sets.
pub record IsSets (locks : Locks) : Type 0 where
  pub set_of : (key : String) (lock : Lock) → lookup key locks ≡ some lock → IsSetValue lock.value

abbrev pub score_in : Value → String → Option ℤ
score_in (text s) member = none
score_in (number n) member = none
score_in (json es) member = lookup member es

abbrev score_of : Option Lock → String → Option ℤ
score_of none member = none
score_of (some lock) member = score_in lock.value member

abbrev pub score : Locks → String → String → Option ℤ
score locks key member = score_of (lookup key locks) member

pub Set-entries : (v : Value) → IsSetValue v → (es : Map ℤ) × (v ≡ json es) × IsMap es
Set-entries (text s) h = absurd h
Set-entries (number n) h = absurd h
Set-entries (json es) h = (es, refl, h)

set-IsSets :
    (key : String) (lock : Lock) (locks : Locks)
    → IsSetValue lock.value
    → IsSets locks
    → IsSets (Map.set key lock locks)
set-IsSets key lock locks good all = record {
  set_of = λ j found h. elim (Bool-cases (str_eq key j)) [
    | inl same ↦
        let e : lock ≡ found = ground (arith, lookup-set j key lock locks) in rw (sym e) good
    | inr other ↦ all.set_of j found (ground (arith, lookup-set j key lock locks))
  ];
}

delete-IsSets : (key : String) (locks : Locks) → IsSets locks → IsSets (Map.delete key locks)
delete-IsSets key locks all = record {
  set_of = λ j found h. all.set_of j found (ground (arith, lookup-delete j key locks));
}

-- What a map of entries becomes: its scores, and that its members stay apart.
zadd_stored :
    (now : ℕ) (key : String) (x : ℤ) (m : String) (locks : Locks)
    → IsSets locks
    → (lock : Lock) × (zadd now key x m locks ≡ some (Map.set key lock locks))
      × IsSetValue lock.value
      × ((n : String) → score_in lock.value n ≡ (if str_eq m n then some x else score locks key n))
unfolding zadd
zadd_stored now key x m locks all = elim (Option-cases (lookup key locks)) [
  | inl absent ↦ (
    record { value = json ((m, x) ∷ []); expires_at = now + 30000 },
    ground arith,
    (refl, tt),
    λ n. ground arith,
  )
  | inr (lock, found) ↦
      (let (es, stored, apart) = Set-entries lock.value (all.set_of key lock found) in
        (
          record lock { value = json (Map.set m x (from_entries es)) },
          ground arith,
          set-IsMap m x (from_entries es) (from_entries-IsMap es),
          λ n. ground (arith, lookup-set n m x (from_entries es), lookup-from_entries n es apart),
        ))
]

pub zadd-score :
    (now : ℕ) (key : String) (x : ℤ) (m : String) (locks : Locks)
    → IsSets locks
    → (locks' : Locks) × (zadd now key x m locks ≡ some locks')
      × IsSets locks'
      × ((j n : String)
          → score locks' j n ≡ (if str_eq key j && str_eq m n then some x else score locks j n))
zadd-score now key x m locks all =
    let (lock, done, good, scores) = zadd_stored now key x m locks all in
    (
      Map.set key lock locks,
      done,
      set-IsSets key lock locks good all,
      λ j n. ground (arith, lookup-set j key lock locks, scores n, eq_iff key j),
    )

abbrev pub is_some : Option ℤ → Bool
is_some none = false
is_some (some x) = true

has-is_some : (k : String) (m : Map ℤ) → has k m ≡ is_some (lookup k m)
has-is_some k [] = refl
has-is_some k ((j, x) ∷ m) = ground (arith, has-is_some k m)

pub zrem-score :
    (key : String) (m : String) (locks : Locks)
    → IsSets locks
    → (locks' : Locks) × (zrem key m locks ≡ some (is_some (score locks key m), locks'))
      × IsSets locks'
      × ((j n : String)
          → score locks' j n ≡ (if str_eq key j && str_eq m n then none else score locks j n))
unfolding zrem
zrem-score key m locks all = elim (Option-cases (lookup key locks)) [
  | inl absent ↦ (locks, ground arith, all, λ j n. ground (arith, eq_iff key j))
  | inr (lock, found) ↦
      let (es, stored, apart) = Set-entries lock.value (all.set_of key lock found) in
      let rest : Lock = record lock { value = json (Map.delete m (from_entries es)) } in
      (
        Map.set key rest locks,
        ground (arith, has-is_some m (from_entries es), lookup-from_entries m es apart),
        set-IsSets key rest locks (delete-IsMap m (from_entries es) (from_entries-IsMap es)) all,
        λ j n. ground (
          arith,
          eq_iff key j,
          lookup-set j key rest locks,
          lookup-delete n m (from_entries es),
          lookup-from_entries n es apart,
        ),
      )
]

pub expire-score :
    (now : ℕ) (key : String) (seconds : ℕ) (locks : Locks)
    → IsSets locks
    → IsSets (expire now key seconds locks).1
      × ((j n : String) → score (expire now key seconds locks).1 j n ≡ score locks j n)
unfolding expire
expire-score now key seconds locks all = elim (Option-cases (lookup key locks)) [
  | inl absent ↦ (ground (arith, all), λ j n. ground arith)
  | inr (lock, found) ↦
      let later : Lock = record lock { expires_at = now + seconds * 1000 } in
      let same : (expire now key seconds locks).1 ≡ Map.set key later locks = ground arith in
      (
        rw same (set-IsSets key later locks (all.set_of key lock found) all),
        λ j n. ground (arith, eq_iff key j, lookup-set j key later locks),
      )
]

abbrev pub is_one : List String → String → Bool
is_one [] j = false
is_one (k ∷ ks) j = if str_eq k j then true else is_one ks j

pub del-score :
    (ks : List String) (locks : Locks)
    → IsSets locks
    → IsSets (del ks locks).1
      × ((j n : String)
          → score (del ks locks).1 j n ≡ (if is_one ks j then none else score locks j n))
unfolding del
del-score [] locks all = (all, λ j n. refl)
del-score (k ∷ ks) locks all =
    let (good, scores) = del-score ks (Map.delete k locks) (delete-IsSets k locks all) in
    (good, λ j n. ground (arith, scores j n, lookup-delete j k locks))

-- ZSCORE reads the score, but a score of 0 as null.
pub zscore-score :
    (key m : String) (locks : Locks)
    → IsSets locks
    → zscore key m locks ≡ some (or_null (score locks key m))
unfolding zscore
zscore-score key m locks all = elim (Option-cases (lookup key locks)) [
  | inl absent ↦ ground arith
  | inr (lock, found) ↦
      let (es, stored, apart) = Set-entries lock.value (all.set_of key lock found) in
      ground (arith, lookup-from_entries m es apart)
]
