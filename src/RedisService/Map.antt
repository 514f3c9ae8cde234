-- ===== src/RedisService/Map.antt =====
-- `Map<string, V>` of the language: the entries in the order in which their keys were first set.
use hanghae_plus_backend.Prelude.{
  ◌≡◌, refl, inl, inr, String, Bool, true, false, Option, none, some, List, [], ◌∷◌, arith,
  if◌then◌else◌, str_eq, eq_iff, Bool-cases,
}

pub same : (a b : String) → str_eq a b ≡ true → a ≡ b
same a b h = (eq_iff a b).0 h

pub str_eq_refl : (a : String) → str_eq a a ≡ true
str_eq_refl a = (eq_iff a a).1 refl

abbrev pub Map : Type 0 → Type 0
Map V = List (String × V)

module _ {V : Type 0} where
  abbrev pub lookup : String → Map V → Option V
  lookup k [] = none
  lookup k ((j, v) ∷ m) = if str_eq j k then some v else lookup k m

  abbrev pub has : String → Map V → Bool
  has k [] = false
  has k ((j, v) ∷ m) = if str_eq j k then true else has k m

  -- A key that is there keeps its place, another one comes last.
  abbrev pub set : String → V → Map V → Map V
  set k v [] = (k, v) ∷ []
  set k v ((j, w) ∷ m) = let rest = set k v m in if str_eq j k then (j, v) ∷ m else (j, w) ∷ rest

  abbrev pub delete : String → Map V → Map V
  delete k [] = []
  delete k ((j, w) ∷ m) = let rest = delete k m in if str_eq j k then rest else (j, w) ∷ rest

  -- `new Map(entries)`: a later entry for a key replaces the earlier one.
  abbrev set_all : Map V → List (String × V) → Map V
  set_all m [] = m
  set_all m ((k, v) ∷ es) = set_all (set k v m) es

  abbrev pub from_entries : List (String × V) → Map V
  from_entries es = set_all [] es

  -- Each key stands once.
  abbrev pub IsMap : List (String × V) → Type 0
  IsMap [] = Unit
  IsMap ((k, v) ∷ m) = (lookup k m ≡ none) × IsMap m

  pub lookup-set :
      (j k : String) (v : V) (m : Map V)
      → lookup j (set k v m) ≡ (if str_eq k j then some v else lookup j m)
  lookup-set j k v [] = refl
  lookup-set j k v ((i, w) ∷ m) =
      ground (arith, lookup-set j k v m, eq_iff i k, eq_iff k j, eq_iff i j)

  pub lookup-delete :
      (j k : String) (m : Map V) → lookup j (delete k m) ≡ (if str_eq k j then none else lookup j m)
  lookup-delete j k [] = ground arith
  lookup-delete j k ((i, w) ∷ m) =
      ground (arith, lookup-delete j k m, eq_iff i k, eq_iff k j, eq_iff i j)

  pub set-IsMap : (k : String) (v : V) (m : Map V) → IsMap m → IsMap (set k v m)
  set-IsMap k v [] h = (refl, tt)
  set-IsMap k v ((j, w) ∷ m) h = elim (Bool-cases (str_eq j k)) [
    | inl e ↦ rw e h
    | inr e ↦ rw e (ground (arith, lookup-set j k v m, eq_iff j k, eq_iff k j), set-IsMap k v m h.1)
  ]

  pub delete-IsMap : (k : String) (m : Map V) → IsMap m → IsMap (delete k m)
  delete-IsMap k [] h = tt
  delete-IsMap k ((j, w) ∷ m) h = elim (Bool-cases (str_eq j k)) [
    | inl e ↦ rw e (delete-IsMap k m h.1)
    | inr e ↦ rw e (ground (arith, lookup-delete j k m), delete-IsMap k m h.1)
  ]

  set_all-IsMap : (m : Map V) (es : List (String × V)) → IsMap m → IsMap (set_all m es)
  set_all-IsMap m [] h = h
  set_all-IsMap m ((k, v) ∷ es) h = set_all-IsMap (set k v m) es (set-IsMap k v m h)

  pub from_entries-IsMap : (es : List (String × V)) → IsMap (from_entries es)
  from_entries-IsMap es = set_all-IsMap [] es tt

  abbrev or_else : Option V → Option V → Option V
  or_else none b = b
  or_else (some v) b = some v

  lookup-set_all :
      (j : String) (m : Map V) (es : List (String × V))
      → IsMap es
      → lookup j (set_all m es) ≡ or_else (lookup j es) (lookup j m)
  lookup-set_all j m [] h = refl
  lookup-set_all j m ((k, v) ∷ es) h =
      ground (arith, lookup-set_all j (set k v m) es h.1, lookup-set j k v m, eq_iff k j)

  pub lookup-from_entries :
      (j : String) (es : Map V) → IsMap es → lookup j (from_entries es) ≡ lookup j es
  lookup-from_entries j es h = ground (arith, lookup-set_all j [] es h)

  pub has-lookup : (k : String) (m : Map V) → lookup k m ≡ none → has k m ≡ false
  has-lookup k [] h = refl
  has-lookup k ((j, v) ∷ m) h = ground (arith, has-lookup k m)

  pub lookup-has : (k : String) (m : Map V) (v : V) → lookup k m ≡ some v → has k m ≡ true
  lookup-has k [] v h = ground arith
  lookup-has k ((j, w) ∷ m) v h = ground (arith, lookup-has k m v)
