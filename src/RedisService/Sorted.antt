-- ===== src/RedisService/Sorted.antt =====
-- The sort of the entries of a sorted set of src/infrastructure/services/redis.service.ts.
use hanghae_plus_backend.Prelude.{
  ℕ, zero, suc, ◌≡◌, refl, inl, inr, String, false, none, some, List, [], ◌∷◌, arith, if◌then◌else◌,
  str_eq, eq_iff, Bool-cases, length, get_elem?,
}
use hanghae_plus_backend.Prelude.Int.{ℤ, ◌≤ℤ◌, ltb_ℤ}
use hanghae_plus_backend.RedisService.Map.{IsMap, lookup, str_eq_refl}
use hanghae_plus_backend.RedisService.SortedSet.{insert, sort, find_index}

-- Scores do not fall along a list.
abbrev pub IsSorted : List (String × ℤ) → Type 0
IsSorted [] = Unit
IsSorted (a ∷ []) = Unit
IsSorted (a ∷ b ∷ more) = (a.1 ≤ℤ b.1) × IsSorted (b ∷ more)

insert-IsSorted : (a : String × ℤ) (es : List (String × ℤ)) → IsSorted es → IsSorted (insert a es)
insert-IsSorted a [] h = tt
insert-IsSorted a (b ∷ []) h = ground arith
insert-IsSorted a (b ∷ c ∷ more) h = ground (arith, insert-IsSorted a (c ∷ more) h.1)

pub sort-IsSorted : (es : List (String × ℤ)) → IsSorted (sort es)
sort-IsSorted [] = tt
sort-IsSorted (a ∷ es) = insert-IsSorted a (sort es) (sort-IsSorted es)

length-insert : (a : String × ℤ) (es : List (String × ℤ)) → length (insert a es) ≡ suc (length es)
length-insert a [] = refl
length-insert a (b ∷ more) = ground (arith, length-insert a more)

pub length-sort : (es : List (String × ℤ)) → length (sort es) ≡ length es
length-sort [] = refl
length-sort (a ∷ es) = ground (arith, length-insert a (sort es), length-sort es)

lookup-insert :
    (k : String) (a : String × ℤ) (es : List (String × ℤ))
    → lookup a.0 es ≡ none
    → lookup k (insert a es) ≡ (if str_eq a.0 k then some a.1 else lookup k es)
lookup-insert k a [] h = refl
lookup-insert k a (b ∷ more) h =
    ground (arith, lookup-insert k a more, eq_iff a.0 k, eq_iff b.0 k, eq_iff b.0 a.0)

insert-IsMap :
    (a : String × ℤ) (es : List (String × ℤ))
    → lookup a.0 es ≡ none
    → IsMap es
    → IsMap (insert a es)
insert-IsMap a [] h m = (refl, tt)
insert-IsMap a (b ∷ more) h m = elim (Bool-cases (ltb_ℤ b.1 a.1)) [
  | inr before ↦ rw before (h, m)
  | inl after ↦ rw after (
    ground (arith, lookup-insert b.0 a more, m, h, eq_iff b.0 a.0, eq_iff a.0 b.0),
    insert-IsMap a more (ground arith) m.1,
  )
]

pub sort-IsMap :
    (es : List (String × ℤ))
    → IsMap es
    → IsMap (sort es) × ((k : String) → lookup k (sort es) ≡ lookup k es)
sort-IsMap [] h = (tt, λ k. refl)
sort-IsMap (a ∷ es) h =
    let (map, same) = sort-IsMap es h.1 in
    let apart : lookup a.0 (sort es) ≡ none = ground (arith, same a.0, h) in
    (
      insert-IsMap a (sort es) apart map,
      λ k. ground (arith, same k, lookup-insert k a (sort es) apart),
    )

pub find_index-lookup :
    (k : String) (x : ℤ) (es : List (String × ℤ))
    → lookup k es ≡ some x
    → (i : ℕ) × (find_index k es ≡ some i) × (get_elem? es i ≡ some (k, x))
find_index-lookup k x [] h = ground arith
find_index-lookup k x ((j, y) ∷ es) h = elim (Bool-cases (str_eq j k)) [
  | inl same ↦ (0, ground arith, ground (arith, eq_iff j k))
  | inr other ↦
      let (i, found, there) = find_index-lookup k x es (ground arith) in
      (suc i, ground (arith, found), there)
]

pub get_elem-lookup :
    (es : List (String × ℤ)) (i : ℕ) (k : String) (x : ℤ)
    → IsMap es
    → get_elem? es i ≡ some (k, x)
    → (lookup k es ≡ some x) × (find_index k es ≡ some i)
get_elem-lookup [] i k x h there = ground arith
get_elem-lookup (a ∷ es) zero k x h there =
    let same : a ≡ (k, x) = ground arith in
    (ground (arith, same, str_eq_refl k), ground (arith, same, str_eq_refl k))
get_elem-lookup ((j, y) ∷ es) (suc i) k x h there =
    let (found, index) = get_elem-lookup es i k x h.1 there in
    let other : str_eq j k ≡ false = ground (arith, h, found, eq_iff j k) in
    (ground (arith, other, found), ground (arith, other, index))
