-- ===== src/Domain/Order.antt =====
-- src/domain/entities/order.entity.ts
use hanghae_plus_backend.Prelude.{ℕ, ◌+◌, String, Bool, true, ◌&&◌, Option, some, List, ltb, length}
use hanghae_plus_backend.Prelude.Int.{ℤ, pos, ◌-ℤ◌, ltb_ℤ}

pub record OrderItem : Type 0 where
  pub product_id : ℕ
  pub quantity : ℤ
  pub price : ℤ

pub record Order : Type 0 where
  pub id : ℕ
  pub user_id : ℕ
  pub items : List OrderItem
  pub total_amount : ℤ
  pub discount_amount : ℤ
  pub final_amount : ℤ
  pub coupon_id : Option ℕ
  pub coupon_used : Bool
  pub status : String
  pub version : ℕ

unfoldable pub apply_coupon : Order → ℕ → Order
apply_coupon o coupon_id = record o { coupon_id = some coupon_id; coupon_used = true }

unfoldable pub calculate_discount : Order → ℤ → Order
calculate_discount o discount_amount = record o {
  discount_amount = discount_amount;
  final_amount = o.total_amount -ℤ discount_amount;
}

unfoldable pub update_status : Order → String → Order
update_status o status = record o { status = status }

unfoldable pub is_valid : Order → Bool
is_valid o = ltb 0 (length o.items) && ltb_ℤ (pos 0) o.final_amount

unfoldable pub increment_version : Order → Order
increment_version o = record o { version = o.version + 1 }
