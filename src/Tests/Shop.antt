-- ===== src/Tests/Shop.antt =====
-- A shop with a product, a user and a coupon, and what the use cases do in it.
use hanghae_plus_backend.Prelude.{true, false, none, some, [], ◌∷◌}
use hanghae_plus_backend.Prelude.Int.{pos}
use hanghae_plus_backend.App.{State}
use hanghae_plus_backend.Database.Entity.{UserEntity, ProductEntity, CouponEntity, OrderEntity}
use hanghae_plus_backend.Domain.Coupon.{CouponType}
use hanghae_plus_backend.Domain.Order.{Order}
use hanghae_plus_backend.Domain.Payment.{Payment}
use hanghae_plus_backend.Dto.{CreateOrderDto, ProcessPaymentDto}
use hanghae_plus_backend.Tests.Stored.{nothing_stored}
use hanghae_plus_backend.Tests.Memory.{in_memory}

abbrev pub kim : UserEntity
kim = record {
  id = 1;
  email = "kim@example.com";
  name = "Kim";
  points = pos 100000;
  password = "x";
}

abbrev pub mug : ProductEntity
mug = record { id = 1; name = "Mug"; price = pos 5000; stock = pos 10; category = "생활용품" }

abbrev tenth : CouponEntity
tenth = record {
  id = 1;
  user_id = 1;
  coupon_type = CouponType.discount_10_percent;
  discount_rate = pos 10;
  discount_amount = pos 0;
  expiry_date = 2000000000000;
  is_used = false;
}

abbrev pub shop : State in_memory
shop = record {
  users = kim ∷ [];
  products = mug ∷ [];
  coupons = tenth ∷ [];
  orders = [];
  payments = [];
  redis = nothing_stored;
  now = 1700000000000;
  handlers = [];
  queued = [];
  published = [];
  timers = [];
  logs = [];
}

abbrev pub two_mugs : CreateOrderDto
two_mugs = record {
  user_id = 1;
  items = record { product_id = 1; quantity = pos 2 } ∷ [];
  coupon_id = some 1;
}

abbrev pub tray : Order
tray = record {
  id = 1;
  user_id = 1;
  items = record { product_id = 1; quantity = pos 2; price = pos 5000 } ∷ [];
  total_amount = pos 10000;
  discount_amount = pos 1000;
  final_amount = pos 9000;
  coupon_id = some 1;
  coupon_used = true;
  status = "PENDING";
  version = 0;
}

abbrev pub without_coupon : CreateOrderDto
without_coupon = record two_mugs { coupon_id = none }

-- Two mugs, and then more than there are.
abbrev pub too_many : CreateOrderDto
too_many = record {
  user_id = 1;
  items =
      record { product_id = 1; quantity = pos 2 }
      ∷ record { product_id = 1; quantity = pos 20 }
      ∷ [];
  coupon_id = none;
}

-- The shop with the order of two mugs.
abbrev pub tray_row : OrderEntity
tray_row = record {
  id = 1;
  user_id = 1;
  items = record { product_id = 1; quantity = pos 2; price = pos 5000 } ∷ [];
  total_amount = pos 10000;
  discount_amount = pos 1000;
  final_amount = pos 9000;
  coupon_id = some 1;
  coupon_used = true;
  status = "PENDING";
}

abbrev pub billed : State in_memory
billed = record shop { orders = tray_row ∷ [] }

abbrev pub receipt : Payment
receipt = record {
  id = 1;
  order_id = 1;
  user_id = 1;
  total_amount = pos 10000;
  discount_amount = pos 1000;
  final_amount = pos 9000;
  coupon_used = true;
  status = "SUCCESS";
  paid_at = 1700000000000;
  version = 0;
}

abbrev pub pay_tray : ProcessPaymentDto
pay_tray = record { order_id = 1 }
