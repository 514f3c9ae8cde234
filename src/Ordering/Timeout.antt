-- ===== src/Ordering/Timeout.antt =====
-- The ten-minute timer of src/infrastructure/event-handlers/order-created.handler.ts, and what
-- payment-failed.handler.ts does when it has fired.
use hanghae_plus_backend.Prelude.{
  ℕ, ◌≡◌, inl, inr, refl, ap, ◌∙◌, true, false, List, [], ◌∷◌, map, arith, All,
}
use hanghae_plus_backend.App.{State}
use hanghae_plus_backend.Database.Env.{Env}
use hanghae_plus_backend.App.{run-cases}
use hanghae_plus_backend.Failure.{ok}
use hanghae_plus_backend.Dto.{OrderItemDto, CreateOrderDto}
use hanghae_plus_backend.Domain.Order.{Order}
use hanghae_plus_backend.Event.{PaymentFailedEvent}
use hanghae_plus_backend.Repository.Contract.Product.{product}
use hanghae_plus_backend.Validation.Orders.{IsOrderable}
use hanghae_plus_backend.UseCase.CreateOrder.{event_items}
use hanghae_plus_backend.UseCase.CreateOrder
use hanghae_plus_backend.UseCase.ProcessPayment.{order_event_items}
use hanghae_plus_backend.Handler.PaymentFailed.{handle}
use hanghae_plus_backend.Handler.Restore.{compensate}
use hanghae_plus_backend.Reservation.Ordered.{ordered, more-less}
use hanghae_plus_backend.Reservation.Collected.{priced}
use hanghae_plus_backend.Compensation.Stock.{IsNamed}
use hanghae_plus_backend.Compensation.Effect.{compensate-rows}
use hanghae_plus_backend.Ordering.Created.{create_order-Created}

IsOrderable-IsNamed :
    (items : List OrderItemDto) → All IsOrderable items → All IsNamed (event_items items)
IsOrderable-IsNamed [] h = tt
IsOrderable-IsNamed (item ∷ items) h = ((λ z. omega arith), IsOrderable-IsNamed items h.1)

module _ {env : Env} where
  order_event_items-priced :
      (s : State env) (items : List OrderItemDto)
      → order_event_items (map (priced s) items) ≡ event_items items
  order_event_items-priced s [] = refl
  order_event_items-priced s (item ∷ items) = rw (order_event_items-priced s items)

  -- An event that is no timeout changes nothing at all.
  pub handle-no_timeout :
      (event : PaymentFailedEvent) (s : State env)
      → event.is_timeout ≡ false
      → handle event s ≡ (ok tt, s)
  unfolding handle
  handle-no_timeout event s h = ground arith

  -- The timeout of an order that was created gives the products back: if their rows are as the
  -- creation left them, they are as before it. The handler looks at no order: whatever the order's
  -- status is by then, paid included, the orders, payments and users stay as they are.
  pub timeout-restores :
      (dto : CreateOrderDto) (event : PaymentFailedEvent) (s t : State env) {o : Order}
      {s' t' : State env}
      → CreateOrder.execute dto s ≡ (ok o, s')
      → event.items ≡ order_event_items o.items
      → event.is_timeout ≡ true
      → ((i : ℕ) → product t i ≡ product s' i)
      → handle event t ≡ (ok tt, t')
      → ((i : ℕ) → product t' i ≡ product s i)
        × (t'.orders ≡ t.orders)
        × (t'.payments ≡ t.payments)
        × (t'.users ≡ t.users)
  unfolding handle
  timeout-restores dto event s t {o} {s'} {t'} made items timeout stands h =
      let created = create_order-Created dto s made in
      let same : event.items ≡ event_items dto.items =
        items ∙ ap order_event_items created.items ∙ order_event_items-priced s dto.items in
      let named : All IsNamed event.items =
        rw same (IsOrderable-IsNamed dto.items created.orderable.1) in
      elim (run-cases (compensate event.items event.coupon_id) t) [
        | inr (x, t₁, failed) ↦ ground arith
        | inl (_, t₁, done) ↦
            let back =
              compensate-rows event.items event.coupon_id t {s' = t'} named (ground arith) in
            (
              (λ i. ground (
                arith,
                back.0 i,
                stands i,
                created.stock i,
                same,
                more-less (ordered i (event_items dto.items)) (product s i),
              )),
              ground (arith, back.2),
              ground (arith, back.2),
              ground (arith, back.2),
            )
      ]
