-- ===== src/Caching/Products.antt =====
-- The cache of single products: src/application/use-cases/products/get-product-detail.use-case.ts with
-- the changes of products in src/infrastructure/services/product.service.ts.
use hanghae_plus_backend.Prelude.{
  ℕ, ◌≡◌, ◌⊎◌, refl, sym, inl, inr, none, some, List, arith, Option-cases, All,
}
use hanghae_plus_backend.App.{State}
use hanghae_plus_backend.Database.Env.{Env}
use hanghae_plus_backend.Database.Entity.{ProductEntity}
use hanghae_plus_backend.Failure.{ok, err, missing, product_absent}
use hanghae_plus_backend.Dto.{OrderItemDto, ProductResponseDto}
use hanghae_plus_backend.Validation.Orders.{IsOrderable}
use hanghae_plus_backend.Repository.Product.{to_product}
use hanghae_plus_backend.Repository.Product as Rows
use hanghae_plus_backend.Repository.Contract.Product.{product}
use hanghae_plus_backend.Service.RedisCall.{redis_read, redis_write}
use hanghae_plus_backend.Service.Products as Products
use hanghae_plus_backend.Service.Products.{Reserved, reserve_each, save, invalidate_caches}
use hanghae_plus_backend.UseCase.CreateOrder.{event_items}
use hanghae_plus_backend.UseCase.Queries.{
  cached, put_in_cache, product_response, found_product, read_product, get_product_detail,
}
use hanghae_plus_backend.Reservation.Ordered.{ordered, less}
use hanghae_plus_backend.Reservation.Reserve.{reserve_each-rows}

module _ {env : Env} where
  -- What a request for a product finds: it is cached; it has a row, which is cached if Redis allows it; or it
  -- is unknown. Nothing but the Redis store changes.
  pub data Detail (i : ℕ) (s : State env) : Type 0 where
    hit :
        (p : ProductResponseDto)
        → env.redis.product_cache i s.redis ≡ some p
        → get_product_detail i s ≡ (ok p, s)
        → Detail i s
    read :
        (e : ProductEntity) (s₁ : State env)
        → product s i ≡ some e
        → get_product_detail i s ≡ (ok (product_response (to_product e)), s₁)
        → s₁ ≡ record s { redis = s₁.redis }
        → (env.redis.product_cache i s₁.redis ≡ some (product_response (to_product e))) ⊎ (s₁ ≡ s)
        → Detail i s
    unknown :
        product s i ≡ none
        → get_product_detail i s ≡ (err (missing (product_absent i)), s)
        → Detail i s

  cached-product :
      (i : ℕ) (s : State env)
      → (cached (env.redis.get_product_cache i) s ≡ (ok none, s))
        ⊎ ((p : ProductResponseDto) × (env.redis.product_cache i s.redis ≡ some p)
            × (cached (env.redis.get_product_cache i) s ≡ (ok (some p), s)))
  unfolding cached redis_read
  cached-product i s = elim (Option-cases (env.redis.get_product_cache i s.redis)) [
    | inl failed ↦ inl (ground arith)
    | inr (none, missed) ↦ inl (ground arith)
    | inr (some p, found) ↦ elim (env.redis.get_product_cache_lem i s.redis found) [
      | inl nothing ↦ ground arith
      | inr held ↦ inr (p, sym held, ground arith)
    ]
  ]

  -- get-product-detail.use-case.ts answers a cached product as it was cached, and another as its
  -- row says, whatever calls of Redis fail; a product without a row is not found.
  pub get_product_detail-Detail : (i : ℕ) (s : State env) → Detail i s
  unfolding get_product_detail read_product found_product Products.find_by_id Rows.find_by_id
      put_in_cache redis_write
  get_product_detail-Detail i s = elim (cached-product i s) [
    | inr (p, held, found) ↦ hit p held (ground (arith, found))
    | inl missed ↦ elim (Option-cases (product s i)) [
      | inl absent ↦ unknown absent (ground (arith, missed))
      | inr (e, found) ↦
          (let p : ProductResponseDto = product_response (to_product e) in
            elim (Option-cases (env.redis.set_product_cache i p 600 s.redis)) [
              | inl refused ↦ read e s found (ground (arith, missed)) refl (inr refl)
              | inr (r, written) ↦
                  read e (record s { redis = r }) found (ground (arith, missed)) refl
                    (inl (
                      ground (
                        arith,
                        env.redis.product_cache-set_product_cache i p 600 s.redis written i,
                      )))
            ])
    ]
  ]

  -- The reservation of an order lowers the stock of its products and leaves the caches: as long as
  -- a product is cached, the stock that get-product-detail.use-case.ts answers is that of before
  -- the orders.
  pub get_product_detail-reserve_each :
      (i : ℕ) (p : ProductResponseDto) (items : List OrderItemDto) (acc : Reserved) (s : State env)
      {r : Reserved} {s' : State env}
      → env.redis.get_product_cache i s.redis ≡ some (some p)
      → All IsOrderable items
      → reserve_each items acc s ≡ (ok r, s')
      → (get_product_detail i s ≡ (ok p, s))
        × (get_product_detail i s' ≡ (ok p, s'))
        × (product s' i ≡ less (ordered i (event_items items)) (product s i))
  unfolding get_product_detail cached redis_read
  get_product_detail-reserve_each i p items acc s {r} {s'} held orderable h =
      let (rows, frame) = reserve_each-rows items acc s orderable h in
      let store : s'.redis ≡ s.redis = ground (arith, frame) in
      (ground (arith, held), ground (arith, held, store), rows i)
