-- ===== src/Ranking/Sorted.antt =====
-- The sort by scores of src/application/use-cases/products/get-top-sellers.use-case.ts, and the first entries.
use mathlib.Core.List.{Perm}
use mathlib.Core.List.Perm
use hanghae_plus_backend.Prelude.{
  ℕ, zero, suc, ◌≤◌, ◌≡◌, ◌⊎◌, refl, ap, inl, inr, List, [], ◌∷◌, ◌++◌, arith, Bool-cases, length,
  All, All-mono,
}
use hanghae_plus_backend.Prelude.Int.{ℤ, ◌≤ℤ◌, ltb_ℤ}
use hanghae_plus_backend.UseCase.TopSellers.{insert, sort, first}

abbrev pub after : {A : Type 0} → ℕ → List A → List A
after zero xs = xs
after (suc n) [] = []
after (suc n) (x ∷ xs) = after n xs

abbrev pub Below : ℕ × ℤ → ℕ × ℤ → Type 0
Below a b = b.1 ≤ℤ a.1

-- Each score is at least as large as all that follow.
abbrev pub IsDescending : List (ℕ × ℤ) → Type 0
IsDescending [] = Unit
IsDescending (a ∷ more) = All (Below a) more × IsDescending more

module _ (P : ℕ × ℤ → Type 0) where
  All-insert : (a : ℕ × ℤ) (es : List (ℕ × ℤ)) → P a → All P es → All P (insert a es)
  All-insert a [] p h = (p, tt)
  All-insert a (b ∷ more) p h = elim (Bool-cases (ltb_ℤ a.1 b.1)) [
    | inl less ↦ rw less (h.0, All-insert a more p h.1)
    | inr more_sold ↦ rw more_sold (p, h)
  ]

insert-IsDescending : (a : ℕ × ℤ) (es : List (ℕ × ℤ)) → IsDescending es → IsDescending (insert a es)
insert-IsDescending a [] h = (tt, tt)
insert-IsDescending a (b ∷ more) h = elim (Bool-cases (ltb_ℤ a.1 b.1)) [
  | inl less ↦
      rw less (All-insert (Below b) a more (ground arith) h.0, insert-IsDescending a more h.1)
  | inr more_sold ↦ rw more_sold ((ground arith, All-mono (λ c le. ground arith) more h.0), h)
]

pub sort-IsDescending : (es : List (ℕ × ℤ)) → IsDescending (sort es)
sort-IsDescending [] = tt
sort-IsDescending (a ∷ es) = insert-IsDescending a (sort es) (sort-IsDescending es)

All-after : (P : ℕ × ℤ → Type 0) (n : ℕ) (es : List (ℕ × ℤ)) → All P es → All P (after n es)
All-after P zero es h = h
All-after P (suc n) [] h = tt
All-after P (suc n) (a ∷ es) h = All-after P n es h.1

pub first-Below :
    (n : ℕ) (es : List (ℕ × ℤ))
    → IsDescending es
    → All (λ a. All (Below a) (after n es)) (first n es)
first-Below zero es h = tt
first-Below (suc n) [] h = tt
first-Below (suc n) (a ∷ es) h = (All-after (Below a) n es h.0, first-Below n es h.1)

insert-Perm : (a : ℕ × ℤ) (es : List (ℕ × ℤ)) → Perm (insert a es) (a ∷ es)
insert-Perm a [] = Perm.refl (a ∷ [])
insert-Perm a (b ∷ more) = elim (Bool-cases (ltb_ℤ a.1 b.1)) [
  | inl less ↦ rw less (Perm.trans (Perm.cons b (insert-Perm a more)) (Perm.swap a b more))
  | inr more_sold ↦ rw more_sold (Perm.refl (a ∷ b ∷ more))
]

pub sort-Perm : (es : List (ℕ × ℤ)) → Perm (sort es) es
sort-Perm [] = Perm.refl []
sort-Perm (a ∷ es) = Perm.trans (insert-Perm a (sort es)) (Perm.cons a (sort-Perm es))

pub first-after : {A : Type 0} (n : ℕ) (xs : List A) → xs ≡ first n xs ++ after n xs
first-after zero xs = refl
first-after (suc n) [] = refl
first-after (suc n) (x ∷ xs) = ap (λ ys. x ∷ ys) (first-after n xs)

-- Fewer than `n` are taken only where nothing is left out.
pub first_full : {A : Type 0} (n : ℕ) (xs : List A) → (length (first n xs) ≡ n) ⊎ (after n xs ≡ [])
first_full zero xs = inl refl
first_full (suc n) [] = inr refl
first_full (suc n) (x ∷ xs) = elim (first_full n xs) [
  | inl all ↦ inl (ap suc all)
  | inr none_left ↦ inr none_left
]

pub length-first : {A : Type 0} (n : ℕ) (xs : List A) → length (first n xs) ≤ n
length-first zero xs = omega arith
length-first (suc n) [] = omega arith
length-first (suc n) (x ∷ xs) = ground (arith, length-first n xs)
