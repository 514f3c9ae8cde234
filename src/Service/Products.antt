-- ===== src/Service/Products.antt =====
-- src/infrastructure/services/product.service.ts
use hanghae_plus_backend.Prelude.{ℕ, Option, none, some, List, [], ◌∷◌, ◌++◌, if◌then◌else◌}
use hanghae_plus_backend.Prelude.Int.{ℤ, pos, ◌+ℤ◌, ◌*ℤ◌}
use hanghae_plus_backend.App.{Action, pure, raise, lift, catch, for_each, ◌>>=◌, ◌>>◌}
use hanghae_plus_backend.Database.Env.{Env}
use hanghae_plus_backend.Failure.{
  Result, ok, err, missing, internal, product_missing, product_unsaved, products_unavailable,
  server_error, includes,
}
use hanghae_plus_backend.Dto.{OrderItemDto}
use hanghae_plus_backend.Domain.Product.{Product, decrease_stock}
use hanghae_plus_backend.Domain.Order.{OrderItem}
use hanghae_plus_backend.Validation.Product.{validate_product_exists, validate_product_stock}
use hanghae_plus_backend.Repository.Product as Rows
use hanghae_plus_backend.Service.RedisCall.{redis_write}

-- What the loop of `validateAndReserveProducts` collects.
pub record Reserved : Type 0 where
  pub products : List Product
  pub order_items : List OrderItem
  pub total_amount : ℤ

abbrev pub nothing_reserved : Reserved
nothing_reserved = record { products = []; order_items = []; total_amount = pos 0 }

-- One round's `push` of the decreased product and its order item, and the sum.
abbrev pub add_reserved : Reserved → Product → OrderItemDto → Reserved
add_reserved acc p item = record {
  products = acc.products ++ p ∷ [];
  order_items =
      acc.order_items
      ++ record { product_id = item.product_id; quantity = item.quantity; price = p.price } ∷ [];
  total_amount = acc.total_amount +ℤ p.price *ℤ item.quantity;
}

-- The checks of the loop's body on a product that was looked up, and the decrease.
unfoldable pub reserve_product : Option Product → ℤ → Result Product
reserve_product none quantity = err (missing product_missing)
reserve_product (some p) quantity = elim (validate_product_exists (some p)) [
  | err e ↦ err e
  | ok _ ↦ elim (validate_product_stock p quantity) [
    | err e ↦ err e
    | ok _ ↦ decrease_stock p quantity
  ]
]

module _ {env : Env} where
  -- One round of the loop: the decreased product, saved.
  unfoldable pub reserve_one : OrderItemDto → Action env Product
  reserve_one item = do
    found ← Rows.find_by_id item.product_id
    p ← lift (reserve_product found item.quantity)
    Rows.save p
    pure p

  unfoldable pub reserve_each : List OrderItemDto → Reserved → Action env Reserved
  reserve_each [] acc = pure acc
  reserve_each (item ∷ items) acc = do
    p ← reserve_one item
    reserve_each items (add_reserved acc p item)

  unfoldable pub validate_and_reserve_products : List OrderItemDto → Action env Reserved
  validate_and_reserve_products items = reserve_each items nothing_reserved

  unfoldable pub find_by_id : ℕ → Action env (Option Product)
  find_by_id product_id = Rows.find_by_id product_id

  -- A failure to drop the caches is logged only.
  unfoldable pub invalidate_caches : ℕ → Action env (Unit {0})
  invalidate_caches product_id =
      catch
        (redis_write (env.redis.invalidate_product_cache product_id)
          >> redis_write env.redis.invalidate_products_cache)
        (λ _. pure tt)

  unfoldable pub save : Product → Action env Product
  save p =
      catch (do saved ← Rows.save p; invalidate_caches p.id; pure saved)
        (λ _. raise (internal product_unsaved))

  -- Each product that was found exists, so the loop over them throws nothing.
  unfoldable pub get_products : Action env (List Product)
  get_products =
      catch
        (do
          products ← Rows.find_all
          for_each products (λ p. lift (validate_product_exists (some p)) >> pure tt)
          pure products)
        (λ e. raise (
          internal
            (if includes e.message product_missing then products_unavailable else server_error)))
