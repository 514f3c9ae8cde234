-- ===== src/Ordering/Failed.antt =====
-- `execute` of src/application/use-cases/orders/create-order.use-case.ts, when it throws, and the
-- compensation of src/infrastructure/event-handlers/order-failed.handler.ts after it.
use mathlib.Core.List.{append-nil}
use hanghae_plus_backend.Prelude.{
  ℕ, ◌≡◌, inl, inr, refl, sym, List, [], ◌∷◌, ◌++◌, arith, Option-cases, All,
}
use hanghae_plus_backend.Prelude.Int.{ℤ, ◌-ℤ◌}
use hanghae_plus_backend.App.{State}
use hanghae_plus_backend.Database.Env.{Env}
use hanghae_plus_backend.App.{run-cases}
use hanghae_plus_backend.Failure.{ok, err, Exception, Result-cases}
use hanghae_plus_backend.Dto.{OrderItemDto, CreateOrderDto}
use hanghae_plus_backend.Event.{OrderFailedEvent}
use hanghae_plus_backend.EventBus.{publish}
use hanghae_plus_backend.Validation.Order.{validate_order_items, validate_order}
use hanghae_plus_backend.Validation.Orders.{validate_order_items-eq-ok}
use hanghae_plus_backend.Repository.Contract.User.{user}
use hanghae_plus_backend.Repository.Contract.Order.{order}
use hanghae_plus_backend.Repository.Contract.Order as OrderRow
use hanghae_plus_backend.Repository.Contract.Product.{product}
use hanghae_plus_backend.Repository.Order as OrderRows
use hanghae_plus_backend.Repository.User as UserRows
use hanghae_plus_backend.Repository.User.{to_user}
use hanghae_plus_backend.Service.Products.{
  Reserved, nothing_reserved, reserve_one, reserve_each, validate_and_reserve_products,
}
use hanghae_plus_backend.Service.Users
use hanghae_plus_backend.Service.Coupons.{validate_and_calculate_discount}
use hanghae_plus_backend.Service.Orders.{OrderData, new_order, create_order}
use hanghae_plus_backend.UseCase.CreateOrder.{
  event_items, failed_event, place_order, create_order_internal, handle_order_creation_failure,
  execute,
}
use hanghae_plus_backend.Handler.OrderFailed.{handle}
use hanghae_plus_backend.Handler.Restore.{compensate}
use hanghae_plus_backend.Reservation.Ordered.{
  ordered, less, more, less_zero, ordered-append, more-less_part,
}
use hanghae_plus_backend.Reservation.Reserve.{reserve_each-rows, reserve_each-failed}
use hanghae_plus_backend.Compensation.Stock.{IsNamed}
use hanghae_plus_backend.Compensation.Effect.{compensate-rows}
use hanghae_plus_backend.Ordering.CouponUse.{discount-err}
use hanghae_plus_backend.Ordering.Placed.{discount-frame}
use hanghae_plus_backend.Ordering.Created.{update_product_ranking-frame}

module _ {env : Env} where
  create_order-err :
      (d : OrderData) (s : State env) {x : Exception} {s' : State env}
      → create_order d s ≡ (err x, s')
      → s' ≡ s
  unfolding create_order
  create_order-err d s {x} {s'} h = elim (run-cases (OrderRows.save (new_order d)) s) [
    | inl (v, s₁, saved) ↦ ground arith
    | inr (y, s₁, failed) ↦ ground (arith, OrderRow.save-err (new_order d) s failed)
  ]

  -- Placing an order that throws may have used the coupon, and has changed nothing else.
  place_order-err :
      (dto : CreateOrderDto) (reserved : Reserved) (s : State env) {x : Exception} {s' : State env}
      → place_order dto reserved s ≡ (err x, s')
      → s' ≡ record s { coupons = s'.coupons }
  unfolding place_order Users.validate_user UserRows.find_by_id
  place_order-err dto reserved s {x} {s'} h = elim (Option-cases (user s dto.user_id)) [
    | inl absent ↦ ground arith
    | inr (u, found) ↦
        elim (run-cases (validate_and_calculate_discount dto.coupon_id reserved.total_amount) s) [
          | inr (y, s₁, failed) ↦
              ground (arith, discount-err dto.coupon_id reserved.total_amount s failed)
          | inl (r, s₁, discounts) ↦
              let total = reserved.total_amount in
              let final : ℤ = total -ℤ r.discount_amount in
              let unchanged = discount-frame dto.coupon_id total s discounts in
              let d : OrderData = record {
                user_id = dto.user_id;
                order_items = reserved.order_items;
                total_amount = total;
                discount_amount = r.discount_amount;
                final_amount = final;
                coupon_id = dto.coupon_id;
                coupon_used = r.coupon_used;
              } in
              elim (Result-cases
                (validate_order dto.items reserved.products (to_user u) r.coupon total final)) [
                  | inl (y, refused) ↦ ground (arith, unchanged)
                  | inr (_, valid) ↦ elim (run-cases (create_order d) s₁) [
                    | inl (o, s₂, made) ↦ ground arith
                    | inr (y, s₂, failed) ↦ ground (arith, unchanged, create_order-err d s₁ failed)
                  ]
                ]
        ]
  ]

  -- Why a request throws `x`, and with it the items whose pieces were taken and the others: none was
  -- taken of invalid items; the items before the one whose reservation throws; or all, where what
  -- follows the reservation throws.
  pub data Cause (dto : CreateOrderDto) (s : State env) (x : Exception)
      : (taken rest : List OrderItemDto) → Type 0 where
    invalid : validate_order_items dto.items ≡ err x → Cause dto s x [] dto.items
    unreserved :
        (taken : List OrderItemDto) (item : OrderItemDto) (rest : List OrderItemDto) (r : Reserved)
        (s₁ : State env)
        → reserve_each taken nothing_reserved s ≡ (ok r, s₁)
        → reserve_one item s₁ ≡ (err x, s₁)
        → Cause dto s x taken (item ∷ rest)
    unplaced :
        (r : Reserved) (s₁ s₂ : State env)
        → reserve_each dto.items nothing_reserved s ≡ (ok r, s₁)
        → place_order dto r s₁ ≡ (err x, s₂)
        → Cause dto s x dto.items []

  -- The state that a request which throws `x` leaves behind.
  pub record Abandoned (dto : CreateOrderDto) (s s' : State env) (x : Exception) : Type 0 where
    pub taken : List OrderItemDto
    pub rest : List OrderItemDto
    pub split : dto.items ≡ taken ++ rest
    pub cause : Cause dto s x taken rest
    pub stock : (i : ℕ) → product s' i ≡ less (ordered i (event_items taken)) (product s i)
    pub users : s'.users ≡ s.users
    pub orders : s'.orders ≡ s.orders
    pub payments : s'.payments ≡ s.payments
    pub published : s'.published ≡ s.published ++ failed_event s.now dto x ∷ []

  -- What the inner method leaves behind when it throws.
  record Stopped (dto : CreateOrderDto) (s s' : State env) (x : Exception) : Type 0 where
    taken : List OrderItemDto
    rest : List OrderItemDto
    split : dto.items ≡ taken ++ rest
    cause : Cause dto s x taken rest
    stock : (i : ℕ) → product s' i ≡ less (ordered i (event_items taken)) (product s i)
    frame : s' ≡ record s { products = s'.products; coupons = s'.coupons }

  create_order_internal-Stopped :
      (dto : CreateOrderDto) (s : State env) {x : Exception} {s' : State env}
      → create_order_internal dto s ≡ (err x, s')
      → Stopped dto s s' x
  unfolding create_order_internal validate_and_reserve_products publish
  create_order_internal-Stopped dto s {x} {s'} h =
      elim (Result-cases (validate_order_items dto.items)) [
        | inl (y, refused) ↦ record {
          taken = [];
          rest = dto.items;
          split = refl;
          cause = invalid (ground arith);
          stock = λ i. ground (arith, less_zero (product s i));
          frame = ground arith;
        }
        | inr (_, valid) ↦
            let shape = (validate_order_items-eq-ok dto.items).0 (ground (arith, valid)) in
            elim (run-cases (reserve_each dto.items nothing_reserved) s) [
              | inr (y, s₁, failed) ↦
                  let (done, item, rest, r, split, before, last, rows, frame) =
                    reserve_each-failed dto.items nothing_reserved s shape.1 failed in
                  let same : y ≡ x = ground arith in
                  record {
                    taken = done;
                    rest = item ∷ rest;
                    split = split;
                    cause = unreserved done item rest r s₁ before (ground (arith, last, same));
                    stock = λ i. ground (arith, rows i);
                    frame = ground (arith, frame);
                  }
              | inl (reserved, s₁, reserves) ↦
                  let rows = reserve_each-rows dto.items nothing_reserved s shape.1 reserves in
                  elim (run-cases (place_order dto reserved) s₁) [
                    | inr (y, s₂, failed) ↦
                        let placed = place_order-err dto reserved s₁ failed in
                        let same : y ≡ x = ground arith in
                        record {
                          taken = dto.items;
                          rest = [];
                          split = sym (append-nil dto.items);
                          cause = unplaced reserved s₁ s₂ reserves (ground (arith, failed, same));
                          stock = λ i. ground (arith, rows.0 i, placed);
                          frame = ground (arith, rows.1, placed);
                        }
                    | inl (o₂, s₂, places) ↦
                        ground (arith, update_product_ranking-frame reserved.order_items s₂)
                  ]
            ]
      ]

  -- A request that throws leaves no order, and no change of a user or a payment. Its items are
  -- invalid, and no piece was taken; or the reservation of one of them throws the same, and exactly
  -- the pieces of the items before it stay taken; or what follows the reservation throws the same, and
  -- the pieces of all items stay taken. `OrderFailedEvent` with the error's message and every item of
  -- the request is the one event published.
  pub create_order-Abandoned :
      (dto : CreateOrderDto) (s : State env) {x : Exception} {s' : State env}
      → execute dto s ≡ (err x, s')
      → Abandoned dto s s' x
  unfolding execute handle_order_creation_failure publish
  create_order-Abandoned dto s {x} {s'} h = elim (run-cases (create_order_internal dto) s) [
    | inl (o, s₁, made) ↦ ground arith
    | inr (y, s₁, failed) ↦
        let stop = create_order_internal-Stopped dto s failed in
        let same : y ≡ x = ground arith in
        record {
          taken = stop.taken;
          rest = stop.rest;
          split = stop.split;
          cause = rw (sym same) stop.cause;
          stock = λ i. ground (arith, stop.stock i);
          users = ground (arith, stop.frame);
          orders = ground (arith, stop.frame);
          payments = ground (arith, stop.frame);
          published = ground (arith, stop.frame);
        }
  ]

  -- The compensation of a request that threw puts back the pieces of every item, also of those that
  -- were never taken: the stock ends above what it was by the pieces of `rest`.
  pub create_order-overcompensated :
      (dto : CreateOrderDto) (event : OrderFailedEvent) (s : State env) {x : Exception}
      {s' s'' : State env}
      → All IsNamed (event_items dto.items)
      → event.items ≡ event_items dto.items
      → execute dto s ≡ (err x, s')
      → handle event s' ≡ (ok tt, s'')
      → (rest taken : List OrderItemDto) × (dto.items ≡ taken ++ rest)
        × ((i : ℕ) → product s' i ≡ less (ordered i (event_items taken)) (product s i))
        × ((i : ℕ) → product s'' i ≡ more (ordered i (event_items rest)) (product s i))
  unfolding handle
  create_order-overcompensated dto event s {x} {s'} {s''} named same h k =
      let abandoned = create_order-Abandoned dto s h in
      elim (run-cases (compensate event.items event.coupon_id) s') [
        | inr (y, s₁, failed) ↦ ground arith
        | inl (_, s₁, done) ↦
            let back =
              compensate-rows event.items event.coupon_id s' {s' = s''} (rw same named)
                (ground arith) in
            (
              abandoned.rest,
              abandoned.taken,
              abandoned.split,
              abandoned.stock,
              (λ i. ground (
                arith,
                back.0 i,
                abandoned.stock i,
                abandoned.split,
                same,
                ordered-append i abandoned.taken abandoned.rest,
                more-less_part (ordered i (event_items abandoned.taken))
                    (ordered i (event_items abandoned.rest)) (product s i),
              )),
            )
      ]
