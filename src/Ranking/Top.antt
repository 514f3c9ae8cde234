-- ===== src/Ranking/Top.antt =====
-- The top sellers of src/application/use-cases/products/get-top-sellers.use-case.ts: how many there
-- are, and that no product that is left out has sold more.
use mathlib.Core.List.{Mem, Perm, mem-cast, mem-cons_self, mem-cons_of_mem}
use mathlib.Core.List.Perm
use hanghae_plus_backend.Prelude.{
  ℕ, ◌≤◌, ◌≡◌, ◌≢◌, ◌⊎◌, refl, sym, inl, inr, true, none, some, List, [], ◌∷◌, ◌++◌, arith, ==_iff,
  Option-cases, length, All, map,
}
use hanghae_plus_backend.Prelude.Int.{ℤ, pos, negsuc}
use hanghae_plus_backend.App.{State, pure, lift, for_each, ◌>>◌}
use hanghae_plus_backend.Database.Env.{Env}
use hanghae_plus_backend.Database.Redis.{ranking_3d}
use hanghae_plus_backend.Failure.{ok}
use hanghae_plus_backend.Domain.Product.{Product}
use hanghae_plus_backend.Validation.Product.{validate_product_exists}
use hanghae_plus_backend.Repository.Product.{to_product}
use hanghae_plus_backend.Repository.Product as Rows
use hanghae_plus_backend.Service.Products as Products
use hanghae_plus_backend.Service.RedisCall.{redis_read}
use hanghae_plus_backend.UseCase.TopSellers.{
  TopSellerResponseDto, sort, first, product_of, top_seller, known, top_of, execute,
}
use hanghae_plus_backend.Ranking.Sorted.{
  after, Below, IsDescending, sort-IsDescending, first-Below, sort-Perm, first-after, first_full,
  length-first,
}

-- The products of a list of entries, in their order: an entry whose product is not in the table is left
-- out, and one whose product is there stands with a product of its identifier.
pub data Listed (products : List Product) : List (ℕ × ℤ) → List TopSellerResponseDto → Type 0 where
  done : Listed products [] []
  shown :
      (a : ℕ × ℤ) (p : Product) {more : List (ℕ × ℤ)} {top : List TopSellerResponseDto}
      → Mem p products
      → p.id ≡ a.0
      → Listed products more top
      → Listed products (a ∷ more) (record { id = p.id; name = p.name; price = p.price } ∷ top)
  unknown :
      (a : ℕ × ℤ) {more : List (ℕ × ℤ)} {top : List TopSellerResponseDto}
      → All (λ p. p.id ≢ a.0) products
      → Listed products more top
      → Listed products (a ∷ more) top

product_of-found :
    (id : ℕ) (ps : List Product) (p : Product) → product_of id ps ≡ some p → Mem p ps × (p.id ≡ id)
product_of-found id [] p h = ground arith
product_of-found id (q ∷ ps) p h = elim (Option-cases (product_of id ps)) [
  | inr (r, found) ↦
      let (there, own) = product_of-found id ps p (ground arith) in (mem-cons_of_mem q there, own)
  | inl absent ↦ (mem-cast (ground arith) mem-cons_self, ground (arith, ==_iff q.id id))
]

product_of-absent : (id : ℕ) (ps : List Product) → product_of id ps ≡ none → All (λ p. p.id ≢ id) ps
product_of-absent id [] h = tt
product_of-absent id (q ∷ ps) h = elim (Option-cases (product_of id ps)) [
  | inr (r, found) ↦ ground arith
  | inl absent ↦ ((λ z. ground (arith, ==_iff q.id id)), product_of-absent id ps absent)
]

known-Listed : (ps : List Product) (es : List (ℕ × ℤ)) → Listed ps es (known ps es)
known-Listed ps [] = done
known-Listed ps (a ∷ es) = elim (Option-cases (product_of a.0 ps)) [
  | inl absent ↦
      let skipped : known ps (a ∷ es) ≡ known ps es = ground arith in
      rw skipped (unknown a (product_of-absent a.0 ps absent) (known-Listed ps es))
  | inr (p, found) ↦
      let (there, own) = product_of-found a.0 ps p found in
      let added : known ps (a ∷ es) ≡ top_seller p ∷ known ps es = ground arith in
      rw added (shown a p there own (known-Listed ps es))
]

module _ {env : Env} where
  -- All products of the table.
  abbrev pub all_products : State env → List Product
  all_products s = map to_product (env.products.find s.products (λ _. true))

  each_exists :
      (ps : List Product) (s : State env)
      → for_each ps (λ p. lift (validate_product_exists (some p)) >> pure tt) s ≡ (ok tt, s)
  unfolding validate_product_exists
  each_exists [] s = refl
  each_exists (p ∷ ps) s = ground (arith, each_exists ps s)

  get_products-all : (s : State env) → Products.get_products s ≡ (ok (all_products s), s)
  unfolding Products.get_products Rows.find_all
  get_products-all s = ground (arith, each_exists (all_products s) s)

  -- get-top-sellers.use-case.ts always answers and changes nothing. If Redis answers with the entries of
  -- the ranking, they are split into `best` and the others in descending order of the scores, each
  -- entry once, where `best` has five entries, or all if there are fewer: no entry that is left out
  -- has a larger score than one of the best. The answer has the products of the best entries, in their
  -- order, as far as the table has them. If Redis refuses, the answer is empty.
  pub execute-IsDescending :
      (s : State env)
      → (es best rest : List (ℕ × ℤ)) × (top : List TopSellerResponseDto) × (execute s
          ≡ (ok top, s))
        × ((env.redis.zrange ranking_3d (pos 0) (negsuc 0) s.redis ≡ some es)
            ⊎ ((env.redis.zrange ranking_3d (pos 0) (negsuc 0) s.redis ≡ none) × (es ≡ [])))
        × Perm (best ++ rest) es
        × (length best ≤ 5)
        × ((length best ≡ 5) ⊎ (rest ≡ []))
        × IsDescending (best ++ rest)
        × All (λ a. All (Below a) rest) best
        × Listed (all_products s) best top
  unfolding execute top_of redis_read
  execute-IsDescending s =
      elim (Option-cases (env.redis.zrange ranking_3d (pos 0) (negsuc 0) s.redis)) [
        | inl failed ↦ (
          [],
          [],
          [],
          [],
          ground arith,
          inr (failed, refl),
          Perm.refl [],
          omega arith,
          inr refl,
          tt,
          tt,
          done,
        )
        | inr ([], empty) ↦ (
          [],
          [],
          [],
          [],
          ground arith,
          inl empty,
          Perm.refl [],
          omega arith,
          inr refl,
          tt,
          tt,
          done,
        )
        | inr (a ∷ es, found) ↦
            let sorted : List (ℕ × ℤ) = sort (a ∷ es) in
            let whole : first 5 sorted ++ after 5 sorted ≡ sorted = sym (first-after 5 sorted) in
            (
              a ∷ es,
              first 5 sorted,
              after 5 sorted,
              known (all_products s) (first 5 sorted),
              ground (arith, get_products-all s),
              inl found,
              rw whole (sort-Perm (a ∷ es)),
              length-first 5 sorted,
              first_full 5 sorted,
              rw whole (sort-IsDescending (a ∷ es)),
              first-Below 5 sorted (sort-IsDescending (a ∷ es)),
              known-Listed (all_products s) (first 5 sorted),
            )
      ]
