-- ===== src/RedisService/SortedSet.antt =====
-- The sorted sets of src/infrastructure/services/redis.service.ts, which are stored as the JSON text of
-- their entries. A command that throws, on a value of another shape, is none.
use hanghae_plus_backend.Prelude.{
  ℕ, zero, suc, ◌+◌, ◌-◌, String, Bool, false, Option, none, some, List, [], ◌∷◌, if◌then◌else◌,
  str_eq, length,
}
use hanghae_plus_backend.Prelude.Int.{ℤ, pos, negsuc, ◌+ℤ◌, ◌-ℤ◌, ltb_ℤ, eqb_ℤ}
use hanghae_plus_backend.RedisService.Map.{Map, lookup, has}
use hanghae_plus_backend.RedisService.Map as Map
use hanghae_plus_backend.RedisService.Value.{Lock, Locks, json, with_map}

-- A new set expires after 30 seconds; another keeps its time.
unfoldable pub zadd : ℕ → String → ℤ → String → Locks → Option Locks
zadd now key score member locks = elim (lookup key locks) [
  | none ↦
      let lock : Lock = record { value = json ((member, score) ∷ []); expires_at = now + 30000 } in
      some (Map.set key lock locks)
  | some lock ↦ with_map lock.value (λ sorted_set.
      Map.set key (record lock { value = json (Map.set member score sorted_set) }) locks)
]

unfoldable pub zrem : String → String → Locks → Option (Bool × Locks)
zrem key member locks = elim (lookup key locks) [
  | none ↦ some (false, locks)
  | some lock ↦ with_map lock.value (λ sorted_set.
      let rest = json (Map.delete member sorted_set) in
      (has member sorted_set, Map.set key (record lock { value = rest }) locks))
]

-- `score || null`
abbrev pub or_null : Option ℤ → Option ℤ
or_null none = none
or_null (some n) = if eqb_ℤ n (pos 0) then none else some n

unfoldable pub zscore : String → String → Locks → Option (Option ℤ)
zscore key member locks = elim (lookup key locks) [
  | none ↦ some none
  | some lock ↦ with_map lock.value (λ sorted_set. or_null (lookup member sorted_set))
]

-- `sort((a, b) => a[1] - b[1])`, which keeps the order of equal scores.
abbrev pub insert : String × ℤ → List (String × ℤ) → List (String × ℤ)
insert a [] = a ∷ []
insert a (b ∷ more) = let rest = insert a more in if ltb_ℤ b.1 a.1 then b ∷ rest else a ∷ b ∷ more

abbrev pub sort : List (String × ℤ) → List (String × ℤ)
sort [] = []
sort (a ∷ others) = insert a (sort others)

-- An index behind one more entry.
abbrev pub after_one : Option ℕ → Option ℕ
after_one none = none
after_one (some i) = some (suc i)

-- `findIndex(([m]) => m === member)`
abbrev pub find_index : String → List (String × ℤ) → Option ℕ
find_index member [] = none
find_index member (a ∷ others) =
    let rest = after_one (find_index member others) in if str_eq a.0 member then some 0 else rest

unfoldable pub zrank : String → String → Locks → Option (Option ℕ)
zrank key member locks = elim (lookup key locks) [
  | none ↦ some none
  | some lock ↦
      with_map lock.value
        (λ sorted_set. if has member sorted_set then find_index member (sort sorted_set) else none)
]

-- The position that an argument of `slice` stands for: from the end if it is negative.
abbrev pub position : ℤ → ℕ → ℕ
position (pos n) size = n
position (negsuc n) size = size - (n + 1)

module _ {ℓ} {A : Type ℓ} where
  abbrev pub drop : ℕ → List A → List A
  drop zero xs = xs
  drop (suc n) [] = []
  drop (suc n) (x ∷ xs) = drop n xs

  abbrev pub take : ℕ → List A → List A
  take zero xs = []
  take (suc n) [] = []
  take (suc n) (x ∷ xs) = x ∷ take n xs

  -- `xs.slice(start, end)`
  abbrev pub slice : ℤ → ℤ → List A → List A
  slice start end xs =
      let from = position start (length xs) in
      let upto = position end (length xs) in take (upto - from) (drop from xs)

-- A reply of ZRANGE: a member, or with `WITHSCORES` its score after it.
pub data Reply : Type 0 where
  member : String → Reply
  score : ℤ → Reply

abbrev pub members : List (String × ℤ) → List Reply
members [] = []
members ((m, x) ∷ es) = member m ∷ members es

abbrev pub with_scores : List (String × ℤ) → List Reply
with_scores [] = []
with_scores ((m, x) ∷ es) = member m ∷ score x ∷ with_scores es

unfoldable pub zrange : String → ℤ → ℤ → Bool → Locks → Option (List Reply)
zrange key start stop scores locks = elim (lookup key locks) [
  | none ↦ some []
  | some lock ↦ with_map lock.value (λ sorted_set.
      let sorted = sort sorted_set in
      let actual_stop = if eqb_ℤ stop (negsuc 0) then pos (length sorted) -ℤ pos 1 else stop in
      let sliced = slice start (actual_stop +ℤ pos 1) sorted in
      if scores then with_scores sliced else members sliced)
]

unfoldable pub zcard : String → Locks → Option ℕ
zcard key locks = elim (lookup key locks) [
  | none ↦ some 0
  | some lock ↦ with_map lock.value (λ sorted_set. length sorted_set)
]
