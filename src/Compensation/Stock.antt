-- ===== src/Compensation/Stock.antt =====
-- `restoreProductStock` of src/infrastructure/event-handlers, over `ProductsService.save`.
use hanghae_plus_backend.Prelude.{
  ℕ, ◌≡◌, ◌≢◌, inl, inr, sym, ◌∙◌, Option, some, List, [], ◌∷◌, arith, ◌==◌, if◌then◌else◌,
  Option-cases, All,
}
use hanghae_plus_backend.Prelude.Int.{pos}
use hanghae_plus_backend.App.{State}
use hanghae_plus_backend.Database.Env.{Env}
use hanghae_plus_backend.App.{run-cases}
use hanghae_plus_backend.Failure.{ok}
use hanghae_plus_backend.Domain.Product.{Product, increase_stock}
use hanghae_plus_backend.Event.{EventItem}
use hanghae_plus_backend.Repository.Contract.Product.{product, save-Saved}
use hanghae_plus_backend.Repository.Product as Rows
use hanghae_plus_backend.Repository.Product.{to_product, of_product}
use hanghae_plus_backend.Service.RedisCall.{redis_write}
use hanghae_plus_backend.Service.Products.{invalidate_caches}
use hanghae_plus_backend.Service.Products
use hanghae_plus_backend.Handler.Restore.{restore_found, restore_item, restore_product_stock}
use hanghae_plus_backend.Reservation.Ordered.{ordered, more, more_zero, more-more}

-- The item names a product.
abbrev pub IsNamed : EventItem → Type 0
IsNamed item = item.product_id ≢ 0

module _ {env : Env} where
  redis_write-frame :
      (call : env.redis.Store → Option env.redis.Store) (s : State env)
      → (redis_write call s).1 ≡ record s { redis = (redis_write call s).1.redis }
  unfolding redis_write
  redis_write-frame call s = ground arith

  -- Dropping the caches never throws, and touches the Redis store only.
  pub invalidate_caches-frame :
      (i : ℕ) (s : State env)
      → ((invalidate_caches i s).0 ≡ ok tt)
        × ((invalidate_caches i s).1 ≡ record s { redis = (invalidate_caches i s).1.redis })
  unfolding invalidate_caches redis_write
  invalidate_caches-frame i s = (ground arith, ground arith)

  -- The service's save puts the product's columns into its row; only the Redis store may change
  -- besides.
  pub save-Saved-redis :
      (p : Product) (s : State env) {q : Product} {s' : State env}
      → p.id ≢ 0
      → Products.save p s ≡ (ok q, s')
      → ((i : ℕ) → product s' i ≡ (if p.id == i then some (of_product p) else product s i))
        × (s' ≡ record s { products = s'.products; redis = s'.redis })
  unfolding Products.save
  save-Saved-redis p s {q} {s'} known h = elim (run-cases (Rows.save p) s) [
    | inr (x, s₁, failed) ↦ ground arith
    | inl (v, s₁, saved) ↦
        let put = save-Saved p s known saved in
        let drop = invalidate_caches-frame p.id s₁ in
        ((λ i. ground (arith, put.row i, drop)), ground (arith, put.frame, drop))
  ]

  -- One round of the loop puts the quantity back into the row of the product.
  restore_item-rows :
      (item : EventItem) (s : State env) {s' : State env}
      → IsNamed item
      → restore_item item s ≡ (ok tt, s')
      → ((i : ℕ)
          → product s' i
            ≡ more (if item.product_id == i then item.quantity else pos 0) (product s i))
        × (s' ≡ record s { products = s'.products; redis = s'.redis })
  unfolding restore_item restore_found Products.find_by_id Rows.find_by_id increase_stock
  restore_item-rows item s {s'} named h = elim (Option-cases (product s item.product_id)) [
    | inl absent ↦ ground arith
    | inr (e, found) ↦
        let own : e.id ≡ item.product_id =
          env.products.find_one_key s.products item.product_id e found in
        let p : Product = increase_stock (to_product e) item.quantity in
        elim (run-cases (Products.save p) s) [
          | inr (x, s₁, failed) ↦ ground arith
          | inl (q, s₁, saved) ↦
              let same : s' ≡ s₁ = ground arith in
              let put = save-Saved-redis p s (λ z. named (sym own ∙ z)) saved in
              ((λ i. ground (arith, put.0 i, own, more_zero (product s i))), ground (arith, put.1))
        ]
  ]

  -- The loop puts back into each row exactly the pieces that the items name.
  pub restore_product_stock-rows :
      (items : List EventItem) (s : State env) {s' : State env}
      → All IsNamed items
      → restore_product_stock items s ≡ (ok tt, s')
      → ((i : ℕ) → product s' i ≡ more (ordered i items) (product s i))
        × (s' ≡ record s { products = s'.products; redis = s'.redis })
  unfolding restore_product_stock
  restore_product_stock-rows [] s named h =
      ((λ i. ground (arith, more_zero (product s i))), ground arith)
  restore_product_stock-rows (item ∷ items) s {s'} named h =
      elim (run-cases (restore_item item) s) [
        | inr (x, s₁, failed) ↦ ground arith
        | inl (u, s₁, restored) ↦
            let first = restore_item-rows item s {s' = s₁} named.0 (ground arith) in
            let rest = restore_product_stock-rows items s₁ {s' = s'} named.1 (ground arith) in
            (
              (λ i. ground (
                arith,
                first.0 i,
                rest.0 i,
                more-more item.quantity (ordered i items) (product s i),
                more_zero (more (ordered i items) (product s i)),
                more_zero (product s i),
              )),
              ground (arith, first.1, rest.1),
            )
      ]
