-- ===== src/Validation/Orders.antt =====
-- What an order that passes its validation looks like (order-validation.service.ts).
use hanghae_plus_backend.Prelude.{◌<◌, ◌≡◌, ◌≢◌, ◌↔◌, Option, List, [], ◌∷◌, arith, All}
use hanghae_plus_backend.Prelude.Int.{ℤ, pos, ◌≤ℤ◌}
use hanghae_plus_backend.Failure.{ok}
use hanghae_plus_backend.Dto.{OrderItemDto}
use hanghae_plus_backend.Domain.Product.{Product}
use hanghae_plus_backend.Domain.User.{User}
use hanghae_plus_backend.Domain.Coupon.{Coupon}
use hanghae_plus_backend.Validation.Order.{
  validate_order_item, validate_each_item, validate_order_items, validate_products, validate_order,
}

-- A real product identifier and at least one piece.
abbrev pub IsOrderable : OrderItemDto → Type 0
IsOrderable item = (0 < item.product_id) × (pos 1 ≤ℤ item.quantity)

validate_each_item-eq-ok :
    (items : List OrderItemDto) → (validate_each_item items ≡ ok tt) ↔ All IsOrderable items
unfolding validate_each_item validate_order_item
validate_each_item-eq-ok [] = ground arith
validate_each_item-eq-ok (item ∷ items) = ground (arith, validate_each_item-eq-ok items)

-- The items pass exactly when there is one and each has an identifier and a positive quantity.
pub validate_order_items-eq-ok :
    (items : List OrderItemDto)
    → (validate_order_items items ≡ ok tt) ↔ ((items ≢ []) × All IsOrderable items)
unfolding validate_order_items
validate_order_items-eq-ok [] = ground arith
validate_order_items-eq-ok (item ∷ items) = ground (arith, validate_each_item-eq-ok (item ∷ items))

-- The product at each item's place has the item's quantity in stock.
abbrev pub InStock : List OrderItemDto → List Product → Type 0
InStock [] products = Unit
InStock (item ∷ items) [] = ⊥
InStock (item ∷ items) (p ∷ products) = (item.quantity ≤ℤ p.stock) × InStock items products

validate_products-eq-ok :
    (items : List OrderItemDto) (products : List Product)
    → (validate_products items products ≡ ok tt) ↔ InStock items products
unfolding validate_products
validate_products-eq-ok [] products = ground arith
validate_products-eq-ok (item ∷ items) [] = ground arith
validate_products-eq-ok (item ∷ items) (p ∷ products) =
    ground (arith, validate_products-eq-ok items products)

-- An order passes exactly when its items are orderable, the product at each item's place has the
-- quantity in stock, the user's points cover the final amount, the total is positive and the final
-- amount is not negative. The coupon has no part in it.
pub validate_order-eq-ok :
    (items : List OrderItemDto) (products : List Product) (user : User) (coupon : Option Coupon)
    (total final : ℤ)
    → (validate_order items products user coupon total final ≡ ok tt) ↔ (
        (items ≢ [])
        × All IsOrderable items
        × InStock items products
        × (final ≤ℤ user.points)
        × (pos 1 ≤ℤ total)
        × (pos 0 ≤ℤ final))
unfolding validate_order
validate_order-eq-ok [] products user coupon total final = ground arith
validate_order-eq-ok (item ∷ items) products user coupon total final = ground (
  arith,
  validate_each_item-eq-ok (item ∷ items),
  validate_products-eq-ok (item ∷ items) products,
)
