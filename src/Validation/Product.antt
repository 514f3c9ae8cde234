-- ===== src/Validation/Product.antt =====
-- src/domain/services/product-validation.service.ts. `trimmed_empty` tells whether a name is empty
-- or becomes so by `trim()`.
use hanghae_plus_backend.Prelude.{String, Bool, not, ◌||◌, Option, none, some, str_eq}
use hanghae_plus_backend.Prelude.Int.{ℤ, pos, ltb_ℤ, leb_ℤ}
use hanghae_plus_backend.Failure.{
  Check, Result, ok, err, plain, throw_if, ◌>>◌, ◌>>=◌, product_missing, product_short, zero_price,
  zero_product_quantity, no_product_name, invalid_category,
}
use hanghae_plus_backend.Domain.Product.{Product, has_stock}

unfoldable pub validate_product_exists : Option Product → Result Product
validate_product_exists none = err (plain product_missing)
validate_product_exists (some p) = ok p

unfoldable pub validate_product_stock : Product → ℤ → Check
unfolding has_stock
validate_product_stock p quantity = throw_if (not (has_stock p quantity)) (product_short p.name)

unfoldable pub validate_product_price : ℤ → Check
validate_product_price price = throw_if (leb_ℤ price (pos 0)) zero_price

unfoldable pub validate_product_quantity : ℤ → Check
validate_product_quantity quantity = throw_if (leb_ℤ quantity (pos 0)) zero_product_quantity

unfoldable pub validate_product_category : String → Check
validate_product_category category =
    throw_if
      (not (
        str_eq category "음료"
        || str_eq category "음식"
        || str_eq category "의류"
        || str_eq category "기타"))
      (invalid_category category)

unfoldable pub validate_product_info : (String → Bool) → String → ℤ → ℤ → String → Check
unfolding validate_product_price validate_product_quantity validate_product_category
validate_product_info trimmed_empty name price stock category = do
  throw_if (trimmed_empty name) no_product_name
  validate_product_price price
  validate_product_quantity stock
  validate_product_category category

unfoldable pub validate_product_purchase : Option Product → ℤ → Check
unfolding validate_product_exists validate_product_stock validate_product_quantity
validate_product_purchase product quantity = do
  p ← validate_product_exists product
  validate_product_stock p quantity
  validate_product_quantity quantity

unfoldable pub validate_top_seller_criteria : ℤ → Bool
validate_top_seller_criteria sales_count = ltb_ℤ (pos 50) sales_count
