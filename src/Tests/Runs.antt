-- ===== src/Tests/Runs.antt =====
-- What the use cases do in the shop of the examples.
use hanghae_plus_backend.Prelude.{◌≡◌, refl, ap, true, none, some, [], ◌∷◌}
use hanghae_plus_backend.Prelude.Int.{ℤ, pos, floor_div, ◌*ℤ◌, ◌+ℤ◌, ◌-ℤ◌}
use hanghae_plus_backend.Failure.{Result, ok, err, plain, product_short}
use hanghae_plus_backend.App.{State, Action}
use hanghae_plus_backend.Domain.Coupon.{CouponType}
use hanghae_plus_backend.Domain.Payment.{Payment}
use hanghae_plus_backend.Dto.{ChargePointsDto}
use hanghae_plus_backend.Database.Env.{Env}
use hanghae_plus_backend.Domain.Coupon.{
  use_coupon, revert_usage, is_valid, is_expired, calculate_discount,
}
use hanghae_plus_backend.Domain.Product.{decrease_stock}
use hanghae_plus_backend.Validation.Order.{
  validate_order_items, validate_each_item, validate_order_item, validate_order, validate_products,
  validate_product, validate_coupon, validate_user_points, validate_order_amount,
}
use hanghae_plus_backend.Validation.Product.{validate_product_exists, validate_product_stock}
use hanghae_plus_backend.Repository.User as UserRows
use hanghae_plus_backend.Repository.Product as ProductRows
use hanghae_plus_backend.Repository.Coupon as CouponRows
use hanghae_plus_backend.Repository.Order as OrderRows
use hanghae_plus_backend.Service.Products
use hanghae_plus_backend.Service.Users
use hanghae_plus_backend.Service.Coupons
use hanghae_plus_backend.Service.Orders
use hanghae_plus_backend.Service.RedisCall.{zscore, zadd, expire, redis_write}
use hanghae_plus_backend.EventBus.{publish}
use hanghae_plus_backend.UseCase.CreateOrder
use hanghae_plus_backend.Tests.Shop.{shop, two_mugs, tray, too_many, billed, receipt, pay_tray}
use hanghae_plus_backend.Domain.User
use hanghae_plus_backend.Domain.User.{User}
use hanghae_plus_backend.Domain.Payment
use hanghae_plus_backend.Domain.Product
use hanghae_plus_backend.Repository.Payment as PaymentRows
use hanghae_plus_backend.Service.Payments
use hanghae_plus_backend.UseCase.ProcessPayment
use hanghae_plus_backend.Validation.User.{validate_user_exists}
use hanghae_plus_backend.Validation.Payment.{validate_order_exists, validate_payment_possible}
use hanghae_plus_backend.Domain.Order.{update_status}
use hanghae_plus_backend.Handler.OrderFailed
use hanghae_plus_backend.Handler.Restore
use hanghae_plus_backend.Event.{OrderFailedEvent, PaymentFailedEvent}
use hanghae_plus_backend.Handler.PaymentFailed

-- An action whose result is known.
pub ran :
    {env : Env} {A : Type 0} (m : Action env A) (s : State env) {r : Result A}
    → (m s).0 ≡ r
    → m s ≡ (r, (m s).1)
ran m s h = ap (λ r. (r, (m s).1)) h

-- Kim orders two mugs with the coupon.
pub created : (CreateOrder.execute two_mugs shop).0 ≡ ok tray
unfolding CreateOrder.execute CreateOrder.create_order_internal CreateOrder.place_order
    CreateOrder.update_product_ranking CreateOrder.rank_item Products.validate_and_reserve_products
    Products.reserve_each Products.reserve_one Products.reserve_product Users.validate_user
    Coupons.validate_and_calculate_discount Coupons.apply_found Orders.create_order
    validate_order_items validate_each_item validate_order_item validate_order validate_products
    validate_product validate_coupon validate_user_points validate_order_amount
    validate_product_exists validate_product_stock decrease_stock use_coupon is_valid is_expired
    calculate_discount UserRows.find_by_id ProductRows.find_by_id ProductRows.save
    CouponRows.find_by_id CouponRows.save OrderRows.save ◌+ℤ◌ ◌-ℤ◌ ◌*ℤ◌ floor_div publish zscore
    zadd expire redis_write
created = refl

-- The second item is refused.
pub not_created : (CreateOrder.execute too_many shop).0 ≡ err (plain (product_short "Mug"))
unfolding CreateOrder.handle_order_creation_failure CreateOrder.execute
    CreateOrder.create_order_internal CreateOrder.place_order CreateOrder.update_product_ranking
    CreateOrder.rank_item Products.validate_and_reserve_products Products.reserve_each
    Products.reserve_one Products.reserve_product Users.validate_user
    Coupons.validate_and_calculate_discount Coupons.apply_found Orders.create_order
    validate_order_items validate_each_item validate_order_item validate_order validate_products
    validate_product validate_coupon validate_user_points validate_order_amount
    validate_product_exists validate_product_stock decrease_stock use_coupon is_valid is_expired
    calculate_discount UserRows.find_by_id ProductRows.find_by_id ProductRows.save
    CouponRows.find_by_id CouponRows.save OrderRows.save ◌+ℤ◌ ◌-ℤ◌ ◌*ℤ◌ floor_div publish zscore
    zadd expire redis_write
not_created = refl

-- Kim pays.
pub paid : (ProcessPayment.execute pay_tray billed).0 ≡ ok receipt
unfolding ProcessPayment.execute ProcessPayment.pay_found ProcessPayment.pay validate_order_exists
    validate_payment_possible Users.validate_user Payments.process_payment Payment.process_payment
    Users.use_points Users.invalidate_points validate_user_exists User.use_points
    Orders.update_order_status Orders.update_found update_status Orders.find_by_id
    OrderRows.find_by_id OrderRows.save UserRows.find_by_id UserRows.save PaymentRows.save ◌+ℤ◌ ◌-ℤ◌
    ◌*ℤ◌ publish redis_write
paid = refl

abbrev pub too_many_failed : OrderFailedEvent
too_many_failed = record {
  user_id = 1;
  items = CreateOrder.event_items too_many.items;
  coupon_id = none;
  failure_reason = product_short "Mug";
  failed_at = 1700000000000;
}

-- The compensation of the refused request.
pub overcompensated :
    (OrderFailed.handle too_many_failed (CreateOrder.execute too_many shop).1).0 ≡ ok tt
unfolding OrderFailed.handle Restore.compensate Restore.restore_product_stock Restore.restore_item
    Restore.restore_found Restore.restore_coupon_if Restore.restore_product_ranking
    Restore.restore_rank Restore.lower_score Products.find_by_id Products.save
    Products.invalidate_caches Product.increase_stock CreateOrder.handle_order_creation_failure
    CreateOrder.execute CreateOrder.create_order_internal CreateOrder.place_order
    CreateOrder.update_product_ranking CreateOrder.rank_item Products.validate_and_reserve_products
    Products.reserve_each Products.reserve_one Products.reserve_product Users.validate_user
    Coupons.validate_and_calculate_discount Coupons.apply_found Orders.create_order
    validate_order_items validate_each_item validate_order_item validate_order validate_products
    validate_product validate_coupon validate_user_points validate_order_amount
    validate_product_exists validate_product_stock decrease_stock use_coupon is_valid is_expired
    calculate_discount UserRows.find_by_id ProductRows.find_by_id ProductRows.save
    CouponRows.find_by_id CouponRows.save OrderRows.save ◌+ℤ◌ ◌-ℤ◌ ◌*ℤ◌ floor_div publish zscore
    zadd expire redis_write
overcompensated = refl

-- The timer of the order for two mugs.
abbrev pub tray_timeout : PaymentFailedEvent
tray_timeout = record {
  order_id = 1;
  user_id = 1;
  items = ProcessPayment.order_event_items tray.items;
  coupon_id = some 1;
  failure_reason = none;
  failed_at = 1700000600000;
  is_timeout = true;
}

pub timed_out : (PaymentFailed.handle tray_timeout (CreateOrder.execute two_mugs shop).1).0 ≡ ok tt
unfolding PaymentFailed.handle Restore.compensate Restore.restore_product_stock Restore.restore_item
    Restore.restore_found Restore.restore_coupon_if Restore.restore_coupon_usage
    Restore.restore_coupon revert_usage Coupons.find_by_id Coupons.save
    Restore.restore_product_ranking Restore.restore_rank Restore.lower_score Products.find_by_id
    Products.save Products.invalidate_caches Product.increase_stock CreateOrder.execute
    CreateOrder.create_order_internal CreateOrder.place_order CreateOrder.update_product_ranking
    CreateOrder.rank_item Products.validate_and_reserve_products Products.reserve_each
    Products.reserve_one Products.reserve_product Users.validate_user
    Coupons.validate_and_calculate_discount Coupons.apply_found Orders.create_order
    validate_order_items validate_each_item validate_order_item validate_order validate_products
    validate_product validate_coupon validate_user_points validate_order_amount
    validate_product_exists validate_product_stock decrease_stock use_coupon is_valid is_expired
    calculate_discount UserRows.find_by_id ProductRows.find_by_id ProductRows.save
    CouponRows.find_by_id CouponRows.save OrderRows.save ◌+ℤ◌ ◌-ℤ◌ ◌*ℤ◌ floor_div publish zscore
    zadd expire redis_write
timed_out = refl

pub compensated :
    (Restore.compensate (CreateOrder.event_items two_mugs.items) (some 1) shop).0 ≡ ok tt
unfolding Restore.compensate Restore.restore_product_stock Restore.restore_item
    Restore.restore_found Restore.restore_coupon_if Restore.restore_coupon_usage
    Restore.restore_coupon revert_usage Coupons.find_by_id Restore.restore_product_ranking
    Restore.restore_rank Restore.lower_score Products.find_by_id Products.save
    Products.invalidate_caches Product.increase_stock ProductRows.find_by_id ProductRows.save
    CouponRows.find_by_id CouponRows.save redis_write zscore zadd ◌+ℤ◌
compensated = refl

abbrev pub two_reserved : Products.Reserved
two_reserved = record {
  products =
      record {
        id = 1;
        name = "Mug";
        price = pos 5000;
        stock = pos 8;
        category = "생활용품";
        version = 0;
      }
      ∷ [];
  order_items = tray.items;
  total_amount = pos 10000;
}

pub reserved :
    (Products.reserve_each two_mugs.items Products.nothing_reserved shop).0 ≡ ok two_reserved
unfolding Products.reserve_each Products.reserve_one Products.reserve_product
    validate_product_exists validate_product_stock decrease_stock ProductRows.find_by_id
    ProductRows.save ◌+ℤ◌ ◌-ℤ◌ ◌*ℤ◌
reserved = refl

abbrev pub tenth_used : Coupons.CouponResult
tenth_used = record {
  coupon = some (record {
    id = 1;
    user_id = 1;
    coupon_type = CouponType.discount_10_percent;
    discount_rate = pos 10;
    discount_amount = pos 0;
    expiry_date = 2000000000000;
    is_used = true;
  });
  discount_amount = pos 1000;
  coupon_used = true;
}

pub discounted :
    (Coupons.validate_and_calculate_discount (some 1) (pos 10000) shop).0 ≡ ok tenth_used
unfolding Coupons.validate_and_calculate_discount Coupons.apply_found use_coupon is_valid is_expired
    calculate_discount CouponRows.find_by_id CouponRows.save ◌*ℤ◌ floor_div
discounted = refl

abbrev pub kim_with : ℤ → User
kim_with n = record {
  id = 1;
  name = "Kim";
  email = "kim@example.com";
  points = n;
  password = "x";
  version = 0;
}

abbrev pub charge_5000 : ChargePointsDto
charge_5000 = record { amount = pos 5000 }

pub charged : (Users.charge_points 1 charge_5000 shop).0 ≡ ok (kim_with (pos 105000))
unfolding Users.charge_points Users.invalidate_points validate_user_exists User.charge_points
    UserRows.find_by_id UserRows.save ◌+ℤ◌ redis_write
charged = refl
