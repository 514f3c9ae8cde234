-- ===== src/Dto.antt =====
-- The requests of src/presentation/dto that the use cases take. Numbers that `class-validator`
-- admits are integers here, and an identifier is a natural number, 0 being the falsy one.
use hanghae_plus_backend.Prelude.{ℕ, String, Option, List}
use hanghae_plus_backend.Prelude.Int.{ℤ}

pub record OrderItemDto : Type 0 where
  pub product_id : ℕ
  pub quantity : ℤ

pub record CreateOrderDto : Type 0 where
  pub user_id : ℕ
  pub items : List OrderItemDto
  pub coupon_id : Option ℕ

pub record ProcessPaymentDto : Type 0 where
  pub order_id : ℕ

pub record ChargePointsDto : Type 0 where
  pub amount : ℤ

pub record IssueCouponDto : Type 0 where
  pub user_id : ℕ
  pub coupon_type : String

pub record ProductResponseDto : Type 0 where
  pub id : ℕ
  pub name : String
  pub price : ℤ
  pub stock : ℤ
  pub category : String

pub record RegisterDto : Type 0 where
  pub email : String
  pub password : String
  pub name : String

pub record LoginDto : Type 0 where
  pub email : String
  pub password : String
