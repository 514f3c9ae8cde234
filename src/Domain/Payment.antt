-- ===== src/Domain/Payment.antt =====
-- src/domain/entities/payment.entity.ts. `now` is what `new Date()` returns.
use hanghae_plus_backend.Prelude.{ℕ, ◌+◌, String, Bool, not, ◌&&◌, if◌then◌else◌, str_eq}
use hanghae_plus_backend.Prelude.Int.{ℤ, pos, ltb_ℤ, leb_ℤ}
use hanghae_plus_backend.Failure.{Result, ok, err, plain, payment_processed}

pub record Payment : Type 0 where
  pub id : ℕ
  pub order_id : ℕ
  pub user_id : ℕ
  pub total_amount : ℤ
  pub discount_amount : ℤ
  pub final_amount : ℤ
  pub coupon_used : Bool
  pub status : String
  pub paid_at : ℕ
  pub version : ℕ

unfoldable pub process_payment : ℕ → Payment → Result Payment
process_payment now p =
    if not (str_eq p.status "PENDING")
    then err (plain payment_processed)
    else ok (record p { status = "SUCCESS"; paid_at = now })

unfoldable pub cancel_payment : Payment → Payment
cancel_payment p = if str_eq p.status "SUCCESS" then record p { status = "CANCELLED" } else p

unfoldable pub is_successful : Payment → Bool
is_successful p = str_eq p.status "SUCCESS"

unfoldable pub is_valid : Payment → Bool
is_valid p = ltb_ℤ (pos 0) p.final_amount && leb_ℤ p.final_amount p.total_amount

unfoldable pub increment_version : Payment → Payment
increment_version p = record p { version = p.version + 1 }
