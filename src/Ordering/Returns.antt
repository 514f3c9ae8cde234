-- ===== src/Ordering/Returns.antt =====
-- `execute` of src/application/use-cases/orders/create-order.use-case.ts returns where it is meant
-- to, on tables that accept every save.
use hanghae_plus_backend.Prelude.{◌≡◌, ◌≢◌, ◌∙◌, false, none, some, [], map, arith, All}
use hanghae_plus_backend.Prelude.Int.{ℤ, pos, ◌≤ℤ◌, ◌+ℤ◌, ◌-ℤ◌, int_laws}
use hanghae_plus_backend.App.{State}
use hanghae_plus_backend.Database.Env.{Env}
use hanghae_plus_backend.Database.Accepts.{Accepts}
use hanghae_plus_backend.Database.Entity.{UserEntity}
use hanghae_plus_backend.Failure.{ok}
use hanghae_plus_backend.Dto.{CreateOrderDto}
use hanghae_plus_backend.Domain.Order.{Order}
use hanghae_plus_backend.Repository.Order as OrderRows
use hanghae_plus_backend.Repository.Order.{to_order, of_order}
use hanghae_plus_backend.Repository.User as UserRows
use hanghae_plus_backend.Repository.User.{to_user}
use hanghae_plus_backend.Repository.Contract.User.{user}
use hanghae_plus_backend.Service.Products.{
  Reserved, nothing_reserved, validate_and_reserve_products,
}
use hanghae_plus_backend.Service.Users
use hanghae_plus_backend.Service.Coupons
use hanghae_plus_backend.Service.Orders.{OrderData, new_order, create_order}
use hanghae_plus_backend.UseCase.CreateOrder.{
  execute, create_order_internal, place_order, update_product_ranking, created_event,
}
use hanghae_plus_backend.EventBus.{publish}
use hanghae_plus_backend.Validation.Order.{validate_order}
use hanghae_plus_backend.Validation.Orders.{
  IsOrderable, InStock, validate_order_items-eq-ok, validate_order-eq-ok,
}
use hanghae_plus_backend.Reservation.Collected.{amount, priced, reserve_each-collects}
use hanghae_plus_backend.Reservation.Reserve.{reserve_each-rows}
use hanghae_plus_backend.Reservation.Returns.{IsCovered, reserve_each-returns}
use hanghae_plus_backend.Ordering.Created.{
  Created, create_order-Created, update_product_ranking-frame,
}

drop_zero : (a : ℤ) → a -ℤ pos 0 ≡ a
drop_zero a = omega int_laws

one_nonneg : (a : ℤ) → pos 1 ≤ℤ a → pos 0 ≤ℤ a
one_nonneg a h = omega arith

pad_zero : (a : ℤ) → pos 0 +ℤ a ≡ a
pad_zero a = omega int_laws

module _ {env : Env} where
  create_order-returns :
      (d : OrderData) (s : State env)
      → Accepts env.orders
      → (o : Order) × (s' : State env) × (create_order d s ≡ (ok o, s'))
  unfolding create_order OrderRows.save
  create_order-returns d s accepts =
      let (e, rows, saved) = accepts s.orders (of_order 0 d.user_id (new_order d)) in
      (to_order e, record s { orders = rows }, ground (arith, saved))

  place_order-returns :
      (dto : CreateOrderDto) (reserved : Reserved) (u : UserEntity) (s : State env)
      → Accepts env.orders
      → dto.items ≢ []
      → All IsOrderable dto.items
      → InStock dto.items reserved.products
      → dto.coupon_id ≡ none
      → user s dto.user_id ≡ some u
      → pos 1 ≤ℤ reserved.total_amount
      → reserved.total_amount ≤ℤ u.points
      → (o : Order) × (s' : State env) × (place_order dto reserved s ≡ (ok o, s'))
  unfolding place_order Users.validate_user UserRows.find_by_id
      Coupons.validate_and_calculate_discount
  place_order-returns dto reserved u s accepts some_items orderable stocked plain found positive
        covered =
      let total = reserved.total_amount in
      let final : ℤ = total -ℤ pos 0 in
      let same = drop_zero total in
      let valid : validate_order dto.items reserved.products (to_user u) none total final ≡ ok tt =
        (validate_order-eq-ok dto.items reserved.products (to_user u) none total final).1 (
          some_items,
          orderable,
          stocked,
          rw same covered,
          positive,
          rw same (one_nonneg total positive),
        ) in
      let d : OrderData = record {
        user_id = dto.user_id;
        order_items = reserved.order_items;
        total_amount = total;
        discount_amount = pos 0;
        final_amount = final;
        coupon_id = dto.coupon_id;
        coupon_used = false;
      } in
      let (o, s', made) = create_order-returns d s accepts in (o, s', ground (arith, valid, made))

  -- Where the tables of products and orders accept every save, a request without a coupon is answered
  -- if its items are orderable, the stock of each item's product covers what all items ask of it and
  -- the item once more, and the sum of the items at the products' prices is positive and covered by
  -- the points of the user. What it then has done is what `Created` says.
  pub create_order-answered :
      (dto : CreateOrderDto) (u : UserEntity) (s : State env)
      → Accepts env.products
      → Accepts env.orders
      → dto.items ≢ []
      → All IsOrderable dto.items
      → All (IsCovered s dto.items) dto.items
      → dto.coupon_id ≡ none
      → user s dto.user_id ≡ some u
      → pos 1 ≤ℤ amount (map (priced s) dto.items)
      → amount (map (priced s) dto.items) ≤ℤ u.points
      → (o : Order) × (s' : State env) × (execute dto s ≡ (ok o, s')) × Created dto s s' o
  unfolding execute create_order_internal validate_and_reserve_products publish
  create_order-answered dto u s products orders some_items orderable stocked plain found positive
        covered =
      let shape = (validate_order_items-eq-ok dto.items).1 (some_items, orderable) in
      let (r, s₁, left, reserves, split, instock) =
        reserve_each-returns dto.items nothing_reserved s products orderable stocked in
      let rows = reserve_each-rows dto.items nothing_reserved s orderable reserves in
      let collected = reserve_each-collects dto.items nothing_reserved s orderable reserves in
      let sum = collected.1 ∙ pad_zero (amount (map (priced s) dto.items)) in
      let payer : user s₁ dto.user_id ≡ some u = ground (arith, rows.1) in
      let (o, s₂, places) =
        place_order-returns dto r u s₁ orders some_items orderable (rw split instock) plain payer
          (rw sum positive) (rw sum covered) in
      let ranked = update_product_ranking-frame r.order_items s₂ in
      let s₃ : State env = (update_product_ranking r.order_items s₂).1 in
      let answered : execute dto s ≡ (ok o, (publish (created_event s₃.now o) s₃).1) =
        ground (arith, shape, reserves, places, ranked) in
      (o, (publish (created_event s₃.now o) s₃).1, answered, create_order-Created dto s answered)
