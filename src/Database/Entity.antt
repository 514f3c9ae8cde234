-- ===== src/Database/Entity.antt =====
-- The columns of src/infrastructure/repositories/typeorm that the repositories read and write. The
-- version columns and the time stamps are TypeORM's own. An `id` of 0 stands for one not yet set.
use hanghae_plus_backend.Prelude.{ℕ, String, Bool, Option, List}
use hanghae_plus_backend.Prelude.Int.{ℤ}
use hanghae_plus_backend.Domain.Coupon.{CouponType}
use hanghae_plus_backend.Domain.Order.{OrderItem}

pub record UserEntity : Type 0 where
  pub id : ℕ
  pub email : String
  pub name : String
  pub points : ℤ
  pub password : String

pub record ProductEntity : Type 0 where
  pub id : ℕ
  pub name : String
  pub price : ℤ
  pub stock : ℤ
  pub category : String

pub record CouponEntity : Type 0 where
  pub id : ℕ
  pub user_id : ℕ
  pub coupon_type : CouponType
  pub discount_rate : ℤ
  pub discount_amount : ℤ
  pub expiry_date : ℕ
  pub is_used : Bool

pub record OrderEntity : Type 0 where
  pub id : ℕ
  pub user_id : ℕ
  pub items : List OrderItem
  pub total_amount : ℤ
  pub discount_amount : ℤ
  pub final_amount : ℤ
  pub coupon_id : Option ℕ
  pub coupon_used : Bool
  pub status : String

pub record PaymentEntity : Type 0 where
  pub id : ℕ
  pub order_id : ℕ
  pub user_id : ℕ
  pub total_amount : ℤ
  pub discount_amount : ℤ
  pub final_amount : ℤ
  pub coupon_used : Bool
  pub status : String
  pub paid_at : ℕ

-- The generated primary key of each table, as TypeORM reads it and sets it on a saved entity.
pub record HasKey (E : Type 0) : Type 0 where
  pub key : E → ℕ
  pub with_key : ℕ → E → E

abbrev pub user_key : HasKey UserEntity
user_key = record { key = λ e. e.id; with_key = λ i e. record e { id = i } }

abbrev pub product_key : HasKey ProductEntity
product_key = record { key = λ e. e.id; with_key = λ i e. record e { id = i } }

abbrev pub coupon_key : HasKey CouponEntity
coupon_key = record { key = λ e. e.id; with_key = λ i e. record e { id = i } }

abbrev pub order_key : HasKey OrderEntity
order_key = record { key = λ e. e.id; with_key = λ i e. record e { id = i } }

abbrev pub payment_key : HasKey PaymentEntity
payment_key = record { key = λ e. e.id; with_key = λ i e. record e { id = i } }
