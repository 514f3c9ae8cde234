-- ===== src/Validation/Order.antt =====
-- src/domain/services/order-validation.service.ts
use hanghae_plus_backend.Prelude.{ℕ, not, ◌||◌, Option, none, some, List, [], ◌∷◌, ◌==◌, length}
use hanghae_plus_backend.Prelude.Int.{ℤ, pos, ltb_ℤ, leb_ℤ, eqb_ℤ}
use hanghae_plus_backend.Failure.{
  Check, ok, err, plain, throw_if, ◌>>◌, no_items, item_incomplete, item_quantity, product_missing,
  product_short, invalid_coupon, insufficient_points, zero_total, negative_final,
}
use hanghae_plus_backend.Dto.{OrderItemDto}
use hanghae_plus_backend.Domain.Product.{Product, has_stock}
use hanghae_plus_backend.Domain.User.{User, has_enough_points}
use hanghae_plus_backend.Domain.Coupon.{Coupon, is_valid}

-- One round of the loop. A quantity of 0 is falsy, so it counts as missing.
unfoldable pub validate_order_item : OrderItemDto → Check
validate_order_item item = do
  throw_if (item.product_id == 0 || eqb_ℤ item.quantity (pos 0)) item_incomplete
  throw_if (leb_ℤ item.quantity (pos 0)) item_quantity

unfoldable pub validate_each_item : List OrderItemDto → Check
validate_each_item [] = ok tt
validate_each_item (item ∷ items) = validate_order_item item >> validate_each_item items

unfoldable pub validate_order_items : List OrderItemDto → Check
validate_order_items items = do throw_if (length items == 0) no_items; validate_each_item items

unfoldable pub validate_product : Option Product → ℤ → Check
unfolding has_stock
validate_product none quantity = err (plain product_missing)
validate_product (some p) quantity = throw_if (not (has_stock p quantity)) (product_short p.name)

unfoldable pub validate_coupon : ℕ → Option Coupon → Check
unfolding is_valid
validate_coupon now none = ok tt
validate_coupon now (some c) = throw_if (not (is_valid now c)) invalid_coupon

unfoldable pub validate_user_points : User → ℤ → Check
unfolding has_enough_points
validate_user_points u final_amount =
    throw_if (not (has_enough_points u final_amount)) insufficient_points

unfoldable pub validate_order_amount : ℤ → ℤ → Check
validate_order_amount total_amount final_amount = do
  throw_if (leb_ℤ total_amount (pos 0)) zero_total
  throw_if (ltb_ℤ final_amount (pos 0)) negative_final

-- The loop over `i`: `products[i]` is undefined past the end of the list.
unfoldable pub validate_products : List OrderItemDto → List Product → Check
unfolding validate_product
validate_products [] products = ok tt
validate_products (item ∷ items) [] =
    validate_product none item.quantity >> validate_products items []
validate_products (item ∷ items) (p ∷ products) =
    validate_product (some p) item.quantity >> validate_products items products

-- The coupon is an argument that the method does not read.
unfoldable pub validate_order :
    List OrderItemDto → List Product → User → Option Coupon → ℤ → ℤ → Check
unfolding validate_order_items validate_products validate_user_points validate_order_amount
validate_order items products user coupon total_amount final_amount = do
  validate_order_items items
  validate_products items products
  validate_user_points user final_amount
  validate_order_amount total_amount final_amount
