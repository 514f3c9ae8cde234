-- ===== src/Ordering/Created.antt =====
-- `execute` of src/application/use-cases/orders/create-order.use-case.ts, when it returns.
use hanghae_plus_backend.Prelude.{
  ℕ, ◌≡◌, ◌≢◌, inl, inr, refl, sym, ap, ◌∙◌, none, some, List, [], ◌∷◌, ◌++◌, map, arith, ◌==◌,
  if◌then◌else◌, All,
}
use hanghae_plus_backend.Prelude.Int.{ℤ, pos, ◌+ℤ◌, ◌-ℤ◌, ◌≤ℤ◌, int_laws}
use hanghae_plus_backend.App.{State, for_each}
use hanghae_plus_backend.Database.Env.{Env}
use hanghae_plus_backend.App.{run-cases}
use hanghae_plus_backend.Failure.{ok, Result-cases}
use hanghae_plus_backend.Dto.{CreateOrderDto}
use hanghae_plus_backend.Domain.Order.{Order, OrderItem}
use hanghae_plus_backend.Database.Entity.{UserEntity}
use hanghae_plus_backend.Database.Redis.{Key}
use hanghae_plus_backend.EventBus.{publish}
use hanghae_plus_backend.Validation.Order.{validate_order_items}
use hanghae_plus_backend.Validation.Orders.{IsOrderable, validate_order_items-eq-ok}
use hanghae_plus_backend.Repository.Contract.User.{user}
use hanghae_plus_backend.Repository.Contract.Order.{order}
use hanghae_plus_backend.Repository.Contract.Product.{product}
use hanghae_plus_backend.Repository.Order.{of_order}
use hanghae_plus_backend.Service.RedisCall.{redis_write, zscore, zadd, expire}
use hanghae_plus_backend.Service.Products.{
  nothing_reserved, reserve_each, validate_and_reserve_products,
}
use hanghae_plus_backend.UseCase.CreateOrder.{
  event_items, created_event, rank_item, daily_ranking_key, update_product_ranking, place_order,
  create_order_internal, handle_order_creation_failure, execute,
}
use hanghae_plus_backend.Reservation.Ordered.{ordered, less}
use hanghae_plus_backend.Reservation.Reserve.{reserve_each-rows}
use hanghae_plus_backend.Reservation.Collected.{amount, priced, reserve_each-collects}
use hanghae_plus_backend.Reservation.Stocked.{HasTwice, reserve_each-InStock}
use hanghae_plus_backend.Ordering.Placed.{place_order-Placed}

zero_add : (a : ℤ) → pos 0 +ℤ a ≡ a
zero_add a = omega int_laws

module _ {env : Env} where
  rank_item-frame :
      (key : Key) (item : OrderItem) (s : State env)
      → ((rank_item key item s).0 ≡ ok tt)
        × ((rank_item key item s).1 ≡ record s { redis = (rank_item key item s).1.redis })
  unfolding rank_item zscore zadd expire redis_write
  rank_item-frame key item s = (ground arith, ground arith)

  rank_items-frame :
      (key : Key) (items : List OrderItem) (s : State env)
      → ((for_each items (rank_item key) s).0 ≡ ok tt)
        × ((for_each items (rank_item key) s).1
            ≡ record s { redis = (for_each items (rank_item key) s).1.redis })
  rank_items-frame key [] s = (refl, refl)
  rank_items-frame key (item ∷ items) s =
      let first = rank_item-frame key item s in
      let rest = rank_items-frame key items (rank_item key item s).1 in
      (ground (arith, first, rest), ground (arith, first, rest))

  -- Updating the ranking never throws, and touches the Redis store only.
  pub update_product_ranking-frame :
      (items : List OrderItem) (s : State env)
      → ((update_product_ranking items s).0 ≡ ok tt)
        × ((update_product_ranking items s).1
            ≡ record s { redis = (update_product_ranking items s).1.redis })
  unfolding update_product_ranking
  update_product_ranking-frame items s = rank_items-frame (daily_ranking_key s.now) items s

  -- The order `o`, created for a request.
  pub record Created (dto : CreateOrderDto) (s s' : State env) (o : Order) : Type 0 where
    pub orderable : (dto.items ≢ []) × All IsOrderable dto.items
    -- The items are those of the request, at the prices of the products, and the total is their sum.
    pub items : o.items ≡ map (priced s) dto.items
    pub total : o.total_amount ≡ amount o.items
    pub final : o.final_amount ≡ o.total_amount -ℤ o.discount_amount
    pub positive : pos 1 ≤ℤ o.total_amount
    pub nonneg : pos 0 ≤ℤ o.final_amount
    -- The points of the user cover the final amount, and are not touched yet.
    pub payer : UserEntity
    pub has_payer : user s dto.user_id ≡ some payer
    pub covered : o.final_amount ≤ℤ payer.points
    pub owner : o.user_id ≡ dto.user_id
    pub coupon : o.coupon_id ≡ dto.coupon_id
    pub pending : o.status ≡ "PENDING"
    -- The order is a new row; each product is short of the pieces ordered.
    pub fresh : (o.id ≢ 0) × (order s o.id ≡ none)
    pub row :
        (i : ℕ) → order s' i ≡ (if o.id == i then some (of_order o.id o.user_id o) else order s i)
    pub stock : (i : ℕ) → product s' i ≡ less (ordered i (event_items dto.items)) (product s i)
    pub users : s'.users ≡ s.users
    pub payments : s'.payments ≡ s.payments
    pub published : s'.published ≡ s.published ++ created_event s.now o ∷ []

  create_order_internal-Created :
      (dto : CreateOrderDto) (s : State env) {o : Order} {s' : State env}
      → create_order_internal dto s ≡ (ok o, s')
      → Created dto s s' o × All (HasTwice s) dto.items
  unfolding create_order_internal validate_and_reserve_products publish
  create_order_internal-Created dto s {o} {s'} h =
      elim (Result-cases (validate_order_items dto.items)) [
        | inl (x, refused) ↦ ground arith
        | inr (_, valid) ↦
            let shape = (validate_order_items-eq-ok dto.items).0 (ground (arith, valid)) in
            elim (run-cases (reserve_each dto.items nothing_reserved) s) [
              | inr (x, s₁, failed) ↦ ground arith
              | inl (reserved, s₁, reserves) ↦ elim (run-cases (place_order dto reserved) s₁) [
                | inr (x, s₂, failed) ↦ ground arith
                | inl (o₂, s₂, places) ↦
                    let rows = reserve_each-rows dto.items nothing_reserved s shape.1 reserves in
                    let collected =
                      reserve_each-collects dto.items nothing_reserved s shape.1 reserves in
                    let (products, split, twice) =
                      reserve_each-InStock dto.items nothing_reserved s shape.1 reserves in
                    let placed = place_order-Placed dto reserved s₁ places in
                    let ranked = update_product_ranking-frame reserved.order_items s₂ in
                    let same : o ≡ o₂ = ground (arith, ranked) in
                    let kept : s₂ ≡ record s₁ { coupons = s₂.coupons; orders = s₂.orders } =
                      ground (arith, placed.frame, placed.frame_coupons) in
                    let moved : (s'.products ≡ s₂.products)
                        × (s'.orders ≡ s₂.orders)
                        × (s'.users ≡ s₂.users)
                        × (s'.payments ≡ s₂.payments) =
                      ground (arith, ranked) in
                    let sum : reserved.total_amount ≡ amount reserved.order_items =
                      collected.1
                      ∙ zero_add (amount (map (priced s) dto.items))
                      ∙ sym (ap amount collected.0) in
                    (
                      record {
                        orderable = shape;
                        items = ap (λ x. x.items) same ∙ placed.items ∙ collected.0;
                        total = rw same (placed.total ∙ sum ∙ sym (ap amount placed.items));
                        final = rw same placed.final;
                        positive = rw same placed.positive;
                        nonneg = rw same placed.nonneg;
                        payer = placed.payer;
                        has_payer = ground (arith, placed.has_payer, rows.1);
                        covered = rw same placed.covered;
                        owner = rw same placed.owner;
                        coupon = rw same placed.coupon;
                        pending = rw same placed.pending;
                        fresh = (rw same placed.fresh.0, ground (arith, placed.fresh, rows.1));
                        row = λ i. ground (arith, placed.row i, rows.1);
                        stock = λ i. ground (arith, rows.0 i, kept);
                        users = ground (arith, kept, rows.1);
                        payments = ground (arith, kept, rows.1);
                        published = ground (arith, ranked, kept, rows.1);
                      },
                      twice (rw split at (placed.instock)),
                    )
              ]
            ]
      ]

  -- A request that is answered has created an order as `Created` says: of orderable items, at the
  -- products' prices, with a positive total and a final amount that is the total less the discount,
  -- not negative and covered by the user's points; pending, in a new row; the stock of each product
  -- is short of exactly the pieces ordered, no user or payment row has changed, and
  -- `OrderCreatedEvent` is the one event published.
  pub create_order-Created :
      (dto : CreateOrderDto) (s : State env) {o : Order} {s' : State env}
      → execute dto s ≡ (ok o, s')
      → Created dto s s' o
  unfolding execute handle_order_creation_failure publish
  create_order-Created dto s {o} {s'} h = elim (run-cases (create_order_internal dto) s) [
    | inr (x, s₁, failed) ↦ ground arith
    | inl (o₁, s₁, made) ↦ (create_order_internal-Created dto s (ground arith)).0
  ]

  -- A request is answered only if every product had twice the pieces that its item asks for: the
  -- stock is tested again after it was decreased.
  pub create_order-HasTwice :
      (dto : CreateOrderDto) (s : State env) {o : Order} {s' : State env}
      → execute dto s ≡ (ok o, s')
      → All (HasTwice s) dto.items
  unfolding execute handle_order_creation_failure publish
  create_order-HasTwice dto s {o} {s'} h = elim (run-cases (create_order_internal dto) s) [
    | inr (x, s₁, failed) ↦ ground arith
    | inl (o₁, s₁, made) ↦ (create_order_internal-Created dto s {o = o} {s' = s'} (ground arith)).1
  ]
