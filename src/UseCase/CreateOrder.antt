-- ===== src/UseCase/CreateOrder.antt =====
-- src/application/use-cases/orders/create-order.use-case.ts
use hanghae_plus_backend.Prelude.{ℕ, ◌+◌, ◌/◌, Option, none, some, List, map}
use hanghae_plus_backend.Prelude.Int.{ℤ, pos, ◌+ℤ◌, ◌-ℤ◌}
use hanghae_plus_backend.App.{Action, pure, raise, lift, gets, catch, for_each, ◌>>=◌, ◌>>◌}
use hanghae_plus_backend.Database.Env.{Env}
use hanghae_plus_backend.Failure.{Exception}
use hanghae_plus_backend.Dto.{OrderItemDto, CreateOrderDto}
use hanghae_plus_backend.Domain.Order.{Order, OrderItem}
use hanghae_plus_backend.Database.Redis.{Key, ranking_day}
use hanghae_plus_backend.Event.{Event, order_created, order_failed, EventItem}
use hanghae_plus_backend.EventBus.{publish}
use hanghae_plus_backend.Validation.Order.{validate_order_items, validate_order}
use hanghae_plus_backend.Service.RedisCall.{zscore, zadd, expire}
use hanghae_plus_backend.Service.Products
use hanghae_plus_backend.Service.Users
use hanghae_plus_backend.Service.Orders
use hanghae_plus_backend.Service.Coupons

-- The key of the day of a time in milliseconds.
abbrev pub daily_ranking_key : ℕ → Key
daily_ranking_key now = ranking_day (now / 86400000)

abbrev pub or_zero : Option ℤ → ℤ
or_zero none = pos 0
or_zero (some x) = x

abbrev pub event_items : List OrderItemDto → List EventItem
event_items = map (λ item. record { product_id = item.product_id; quantity = item.quantity })

abbrev pub created_event : ℕ → Order → Event
created_event now o = order_created (record {
  order_id = o.id;
  user_id = o.user_id;
  items = o.items;
  total_amount = o.total_amount;
  discount_amount = o.discount_amount;
  final_amount = o.final_amount;
  coupon_id = o.coupon_id;
  coupon_used = o.coupon_used;
  created_at = now;
  expires_at = now + 600000;
})

abbrev pub failed_event : ℕ → CreateOrderDto → Exception → Event
failed_event now dto e = order_failed (record {
  user_id = dto.user_id;
  items = event_items dto.items;
  coupon_id = dto.coupon_id;
  failure_reason = e.message;
  failed_at = now;
})

module _ {env : Env} where
  -- One round of the loop of `updateProductRanking`; a failure is logged only.
  unfoldable pub rank_item : Key → OrderItem → Action env (Unit {0})
  rank_item key item =
      catch
        (do
          current ← zscore key item.product_id
          zadd key (or_zero current +ℤ item.quantity) item.product_id
          expire key 345600)
        (λ _. pure tt)

  unfoldable pub update_product_ranking : List OrderItem → Action env (Unit {0})
  update_product_ranking items = do
    now ← gets (λ s. s.now)
    for_each items (rank_item (daily_ranking_key now))

  -- Steps 4 to 6: the discount, the whole validation and the order, which is saved.
  unfoldable pub place_order : CreateOrderDto → Products.Reserved → Action env Order
  place_order dto reserved = do
    user ← Users.validate_user dto.user_id
    coupon ← Coupons.validate_and_calculate_discount dto.coupon_id reserved.total_amount
    let final_amount = reserved.total_amount -ℤ coupon.discount_amount
    lift (
        validate_order dto.items reserved.products user coupon.coupon reserved.total_amount
          final_amount)
    Orders.create_order (record {
      user_id = dto.user_id;
      order_items = reserved.order_items;
      total_amount = reserved.total_amount;
      discount_amount = coupon.discount_amount;
      final_amount = final_amount;
      coupon_id = dto.coupon_id;
      coupon_used = coupon.coupon_used;
    })

  -- The response is the order that was saved: its identifier, amounts, items and status.
  unfoldable pub create_order_internal : CreateOrderDto → Action env Order
  create_order_internal dto = do
    lift (validate_order_items dto.items)
    reserved ← Products.validate_and_reserve_products dto.items
    order ← place_order dto reserved
    update_product_ranking reserved.order_items
    now ← gets (λ s. s.now)
    publish (created_event now order)
    pure order

  unfoldable pub handle_order_creation_failure : CreateOrderDto → Exception → Action env (Unit {0})
  handle_order_creation_failure dto e = do now ← gets (λ s. s.now); publish (failed_event now dto e)

  unfoldable pub execute : CreateOrderDto → Action env Order
  execute dto =
      catch (create_order_internal dto) (λ e. handle_order_creation_failure dto e >> raise e)
