-- ===== src/RedisService/Rank.antt =====
-- The order of a sorted set of src/infrastructure/services/redis.service.ts: what ZRANK, ZRANGE and ZCARD
-- say of the same set.
use hanghae_plus_backend.Prelude.{
  ℕ, zero, suc, ◌+◌, ◌-◌, ◌≡◌, refl, inl, inr, String, true, false, none, some, List, [], ◌∷◌,
  arith, Option-cases, length, get_elem?,
}
use hanghae_plus_backend.Prelude.Int.{ℤ, pos, negsuc, ◌+ℤ◌, ◌-ℤ◌}
use hanghae_plus_backend.RedisService.Map.{
  Map, lookup, has, from_entries, lookup-from_entries, from_entries-IsMap,
}
use hanghae_plus_backend.RedisService.Value.{Locks}
use hanghae_plus_backend.RedisService.SortedSet.{
  Reply, member, members, with_scores, insert, sort, find_index, take, slice, zrank, zrange, zcard,
}
use hanghae_plus_backend.RedisService.SortedSet as SortedSet
use hanghae_plus_backend.RedisService.Scores.{IsSets, Set-entries, is_some, score}
use hanghae_plus_backend.RedisService.Sorted.{
  IsSorted, sort-IsSorted, length-sort, sort-IsMap, find_index-lookup, get_elem-lookup,
}

take_all {ℓ} : {A : Type ℓ} (xs : List A) → take (length xs) xs ≡ xs
take_all [] = refl
take_all (x ∷ xs) = ground (arith, take_all xs)

one_back : (n : ℕ) → pos n -ℤ pos 1 +ℤ pos 1 ≡ pos n
unfolding ◌+ℤ◌ ◌-ℤ◌
one_back n = ground arith

minus_zero : (n : ℕ) → n - 0 ≡ n
minus_zero n = omega arith

slice_all : (es : List (String × ℤ)) → slice (pos 0) (pos (length es) -ℤ pos 1 +ℤ pos 1) es ≡ es
slice_all es = rw (one_back (length es), minus_zero (length es)) (take_all es)

has-is_some : (k : String) (m : Map ℤ) → has k m ≡ is_some (lookup k m)
has-is_some k [] = refl
has-is_some k ((j, x) ∷ m) = ground (arith, has-is_some k m)

-- The replies are the members of the entries, in their order.
pub record ListsMembers (es : List (String × ℤ)) (replies : List Reply) : Type 0 where
  pub size : length replies ≡ length es
  pub reply :
      (i : ℕ) (m : String) (x : ℤ)
      → get_elem? es i ≡ some (m, x)
      → get_elem? replies i ≡ some (member m)

-- The replies are the members of the entries, in their order, each followed by its score.
pub record ListsScores (es : List (String × ℤ)) (replies : List Reply) : Type 0 where
  pub size : length replies ≡ length es + length es
  pub reply :
      (i : ℕ) (m : String) (x : ℤ)
      → get_elem? es i ≡ some (m, x)
      → (get_elem? replies (i + i) ≡ some (member m))
        × (get_elem? replies (suc (i + i)) ≡ some (SortedSet.score x))

length-members : (es : List (String × ℤ)) → length (members es) ≡ length es
length-members [] = refl
length-members (e ∷ es) = ground (arith, length-members es)

get_elem-members :
    (es : List (String × ℤ)) (i : ℕ) (m : String) (x : ℤ)
    → get_elem? es i ≡ some (m, x)
    → get_elem? (members es) i ≡ some (member m)
get_elem-members [] i m x h = ground arith
get_elem-members ((n, y) ∷ es) zero m x h = ground arith
get_elem-members ((n, y) ∷ es) (suc i) m x h = get_elem-members es i m x h

length-with_scores : (es : List (String × ℤ)) → length (with_scores es) ≡ length es + length es
length-with_scores [] = refl
length-with_scores (e ∷ es) = ground (arith, length-with_scores es)

get_elem-with_scores :
    (es : List (String × ℤ)) (i : ℕ) (m : String) (x : ℤ)
    → get_elem? es i ≡ some (m, x)
    → (get_elem? (with_scores es) (i + i) ≡ some (member m))
      × (get_elem? (with_scores es) (suc (i + i)) ≡ some (SortedSet.score x))
get_elem-with_scores [] i m x h = ground arith
get_elem-with_scores ((n, y) ∷ es) zero m x h = (ground arith, ground arith)
get_elem-with_scores ((n, y) ∷ es) (suc i) m x h =
    let (one, two) = get_elem-with_scores es i m x h in
    let next : suc i + suc i ≡ suc (suc (i + i)) = omega arith in (rw next one, rw next two)

-- Where a member of a set is in its entries: its score is the stored one.
pub data Ranked (key : String) (locks : Locks) (es : List (String × ℤ)) (m : String) : Type 0 where
  absent : score locks key m ≡ none → zrank key m locks ≡ some none → Ranked key locks es m
  placed :
      (i : ℕ) (x : ℤ)
      → score locks key m ≡ some x
      → zrank key m locks ≡ some (some i)
      → get_elem? es i ≡ some (m, x)
      → Ranked key locks es m

-- Where the keys hold sorted sets, ZRANGE from 0 to -1 reads the entries of one, each member once, in
-- ascending order of the scores: their members, or with WITHSCORES each member and then its score.
-- ZCARD is the number of entries. A member that has a score in the set is an entry with this score, at
-- the place that ZRANK answers, and every entry is such a member; for any other, ZRANK answers null.
pub zrange-IsSorted :
    (key : String) (locks : Locks)
    → IsSets locks
    → (es : List (String × ℤ)) × (replies : List Reply) × (pairs : List Reply) × IsSorted es
      × (zrange key (pos 0) (negsuc 0) false locks ≡ some replies)
      × (zrange key (pos 0) (negsuc 0) true locks ≡ some pairs)
      × (zcard key locks ≡ some (length es))
      × ListsMembers es replies
      × ListsScores es pairs
      × ((m : String) → Ranked key locks es m)
      × ((i : ℕ) (m : String) (x : ℤ)
          → get_elem? es i ≡ some (m, x)
          → (score locks key m ≡ some x) × (zrank key m locks ≡ some (some i)))
unfolding zrange zcard zrank
zrange-IsSorted key locks all = elim (Option-cases (lookup key locks)) [
  | inl missing ↦ (
    [],
    [],
    [],
    tt,
    ground arith,
    ground arith,
    ground arith,
    record { size = refl; reply = λ i m x h. ground arith },
    record { size = refl; reply = λ i m x h. ground arith },
    (λ m. absent (ground arith) (ground arith)),
    λ i m x h. ground arith,
  )
  | inr (lock, found) ↦
      let (stored, is_stored, apart) = Set-entries lock.value (all.set_of key lock found) in
      let set : Map ℤ = from_entries stored in
      let (map, same) = sort-IsMap set (from_entries-IsMap stored) in
      let score_of : (m : String) → score locks key m ≡ lookup m set =
        λ m. ground (arith, lookup-from_entries m stored apart) in
      (
        sort set,
        members (sort set),
        with_scores (sort set),
        sort-IsSorted set,
        ground (arith, slice_all (sort set)),
        ground (arith, slice_all (sort set)),
        ground (arith, length-sort set),
        record { size = length-members (sort set); reply = get_elem-members (sort set) },
        record { size = length-with_scores (sort set); reply = get_elem-with_scores (sort set) },
        (λ m. elim (Option-cases (lookup m set)) [
          | inl missing ↦ absent (ground (arith, score_of m)) (ground (arith, has-is_some m set))
          | inr (x, there) ↦
              (let (i, index, elem) = find_index-lookup m x (sort set) (ground (arith, same m)) in
                placed i x (ground (arith, score_of m)) (ground (arith, index, has-is_some m set))
                  elem)
        ]),
        λ i m x elem.
            (let (there, index) = get_elem-lookup (sort set) i m x map elem in
              (
                ground (arith, score_of m, same m, there),
                ground (arith, index, has-is_some m set, same m, there),
              )),
      )
]
