-- ===== src/Tests/Orders.antt =====
-- The theorems on orders, reservations, coupons and compensations, in the shop of the examples.
use hanghae_plus_backend.Prelude.{ℕ, ◌≡◌, ◌⊎◌, refl, some, List, ◌++◌, map, arith, All}
use hanghae_plus_backend.Prelude.Int.{◌*ℤ◌, pos, ◌+ℤ◌}
use hanghae_plus_backend.Failure.{ok, plain, product_short}
use hanghae_plus_backend.App.{State}
use hanghae_plus_backend.Dto.{OrderItemDto}
use hanghae_plus_backend.Database.Entity.{product_key, order_key, CouponEntity}
use hanghae_plus_backend.Validation.Orders.{IsOrderable}
use hanghae_plus_backend.Repository.Contract.Product.{product}
use hanghae_plus_backend.Repository.Contract.Coupon.{coupon}
use hanghae_plus_backend.Service.Products
use hanghae_plus_backend.Service.Coupons
use hanghae_plus_backend.UseCase.CreateOrder
use hanghae_plus_backend.UseCase.CreateOrder.{event_items}
use hanghae_plus_backend.Handler.PaymentFailed
use hanghae_plus_backend.Handler.OrderFailed
use hanghae_plus_backend.Handler.Restore
use hanghae_plus_backend.Reservation.Ordered.{ordered, less, more}
use hanghae_plus_backend.Reservation.Reserve.{reserve_each-rows}
use hanghae_plus_backend.Reservation.Collected.{amount, priced}
use hanghae_plus_backend.Reservation.Stocked.{IsStocked, HasTwice, reserve_each-IsStocked}
use hanghae_plus_backend.Compensation.Stock.{IsNamed}
use hanghae_plus_backend.Compensation.Effect.{reverted, compensate-rows}
use hanghae_plus_backend.Ordering.CouponUse.{Used, discount-cases, discount_once}
use hanghae_plus_backend.Ordering.Created.{Created, create_order-Created, create_order-HasTwice}
use hanghae_plus_backend.Ordering.Failed.{
  Abandoned, create_order-Abandoned, create_order-overcompensated,
}
use hanghae_plus_backend.Ordering.Returns.{create_order-answered}
use hanghae_plus_backend.Reservation.Returns.{IsCovered}
use hanghae_plus_backend.Domain.Order.{Order}
use hanghae_plus_backend.Ordering.Timeout.{timeout-restores}
use hanghae_plus_backend.Tests.Memory.{in_memory, memory-Accepts}
use hanghae_plus_backend.Tests.Shop.{shop, kim, mug, without_coupon, two_mugs, tray, too_many}
use hanghae_plus_backend.Tests.Runs.{
  ran, created, not_created, too_many_failed, overcompensated, tray_timeout, timed_out, compensated,
  reserved, tenth_used, discounted,
}

abbrev made : State in_memory
made = (CreateOrder.execute two_mugs shop).1

create_order-Created_example : Created two_mugs shop made tray
create_order-Created_example =
    create_order-Created two_mugs shop (ran (CreateOrder.execute two_mugs) shop created)

create_order-HasTwice_example : All (HasTwice shop) two_mugs.items
create_order-HasTwice_example =
    create_order-HasTwice two_mugs shop (ran (CreateOrder.execute two_mugs) shop created)

abbrev refused : State in_memory
refused = (CreateOrder.execute too_many shop).1

create_order-Abandoned_example : Abandoned too_many shop refused (plain (product_short "Mug"))
create_order-Abandoned_example =
    create_order-Abandoned too_many shop (ran (CreateOrder.execute too_many) shop not_created)

too_many-IsNamed : All IsNamed (event_items too_many.items)
too_many-IsNamed = ((λ z. omega arith), ((λ z. omega arith), tt))

abbrev blown_up : State in_memory
blown_up = (OrderFailed.handle too_many_failed refused).1

create_order-overcompensated_example :
    (rest taken : List OrderItemDto) × (too_many.items ≡ taken ++ rest)
    × ((i : ℕ) → product refused i ≡ less (ordered i (event_items taken)) (product shop i))
    × ((i : ℕ) → product blown_up i ≡ more (ordered i (event_items rest)) (product shop i))
create_order-overcompensated_example =
    create_order-overcompensated too_many too_many_failed shop too_many-IsNamed refl
      (ran (CreateOrder.execute too_many) shop not_created)
      (ran (OrderFailed.handle too_many_failed) refused overcompensated)

abbrev undone : State in_memory
undone = (PaymentFailed.handle tray_timeout made).1

timeout-restores_example :
    ((i : ℕ) → product undone i ≡ product shop i)
    × (undone.orders ≡ made.orders)
    × (undone.payments ≡ made.payments)
    × (undone.users ≡ made.users)
timeout-restores_example =
    timeout-restores two_mugs tray_timeout shop made
      (ran (CreateOrder.execute two_mugs) shop created) refl refl (λ i. refl)
      (ran (PaymentFailed.handle tray_timeout) made timed_out)

two_mugs-IsOrderable : All IsOrderable two_mugs.items
two_mugs-IsOrderable = ((omega arith, omega arith), tt)

too_many-IsOrderable : All IsOrderable too_many.items
too_many-IsOrderable = ((omega arith, omega arith), ((omega arith, omega arith), tt))

two_mugs-IsNamed : All IsNamed (event_items two_mugs.items)
two_mugs-IsNamed = ((λ z. omega arith), tt)

abbrev given_back : State in_memory
given_back = (Restore.compensate (event_items two_mugs.items) (some 1) shop).1

compensate-rows_example :
    ((i : ℕ)
      → product given_back i ≡ more (ordered i (event_items two_mugs.items)) (product shop i))
    × ((j : ℕ) → coupon given_back j ≡ reverted (Coupons.truthy (some 1)) j (coupon shop j))
    × (given_back ≡ record shop {
      products = given_back.products;
      coupons = given_back.coupons;
      redis = given_back.redis;
    })
compensate-rows_example =
    compensate-rows (event_items two_mugs.items) (some 1) shop two_mugs-IsNamed
      (ran (Restore.compensate (event_items two_mugs.items) (some 1)) shop compensated)

abbrev held : State in_memory
held = (Products.reserve_each two_mugs.items Products.nothing_reserved shop).1

reserve_each-rows_example :
    ((i : ℕ) → product held i ≡ less (ordered i (event_items two_mugs.items)) (product shop i))
    × (held ≡ record shop { products = held.products })
reserve_each-rows_example =
    reserve_each-rows two_mugs.items Products.nothing_reserved shop two_mugs-IsOrderable
      (ran (Products.reserve_each two_mugs.items Products.nothing_reserved) shop reserved)

abbrev stuck : State in_memory
stuck = (Products.reserve_each too_many.items Products.nothing_reserved shop).1

shop-IsStocked : IsStocked shop
shop-IsStocked i e h = ground arith

reserve_each-IsStocked_example : IsStocked stuck
reserve_each-IsStocked_example =
    reserve_each-IsStocked too_many.items Products.nothing_reserved shop too_many-IsOrderable
      shop-IsStocked

abbrev cut : State in_memory
cut = (Coupons.validate_and_calculate_discount (some 1) (pos 10000) shop).1

discount-cases_example :
    ((tenth_used ≡ Coupons.no_discount) × (cut ≡ shop))
    ⊎ ((id : ℕ) × (e : CouponEntity) × (some 1 ≡ some id)
        × Used shop cut (pos 10000) tenth_used id e)
discount-cases_example =
    discount-cases (some 1) (pos 10000) shop
      (ran (Coupons.validate_and_calculate_discount (some 1) (pos 10000)) shop discounted)

discount_once_example :
    Coupons.validate_and_calculate_discount
      (some 1)
      (pos 50000)
      (record cut { now = 1700000009000 })
    ≡ (ok Coupons.no_discount, record cut { now = 1700000009000 })
discount_once_example =
    discount_once 1 (pos 10000) (pos 50000) 1700000009000 shop
      (ran (Coupons.validate_and_calculate_discount (some 1) (pos 10000)) shop discounted) refl

without_coupon-IsCovered : All (IsCovered shop without_coupon.items) without_coupon.items
unfolding ◌+ℤ◌
without_coupon-IsCovered = ((mug, refl, omega arith), tt)

mugs_amount : amount (map (priced shop) without_coupon.items) ≡ pos 10000
unfolding ◌+ℤ◌ ◌*ℤ◌
mugs_amount = refl

create_order-answered_example :
    (o : Order) × (s : State in_memory) × (CreateOrder.execute without_coupon shop ≡ (ok o, s))
    × Created without_coupon shop s o
create_order-answered_example =
    create_order-answered without_coupon kim shop (memory-Accepts product_key (λ n e. refl))
      (memory-Accepts order_key (λ n e. refl)) (λ z. ground arith) two_mugs-IsOrderable
      without_coupon-IsCovered refl refl (rw mugs_amount (omega arith))
      (rw mugs_amount (omega arith))
