-- ===== src/Service/Payments.antt =====
-- src/infrastructure/services/payment.service.ts
use hanghae_plus_backend.Prelude.{ℕ, Bool, List, if◌then◌else◌}
use hanghae_plus_backend.Prelude.Int.{ℤ}
use hanghae_plus_backend.App.{Action, raise, lift, gets, catch, ◌>>=◌}
use hanghae_plus_backend.Database.Env.{Env}
use hanghae_plus_backend.Failure.{
  bad, internal, invalid_payment_data, zero_payment, final_over_total, payment_processed,
  duplicate_payment, order_processed, server_error, includes, Exception,
}
use hanghae_plus_backend.Domain.Payment.{Payment}
use hanghae_plus_backend.Domain.Payment
use hanghae_plus_backend.Repository.Payment as Rows

pub record PaymentData : Type 0 where
  pub order_id : ℕ
  pub user_id : ℕ
  pub total_amount : ℤ
  pub discount_amount : ℤ
  pub final_amount : ℤ
  pub coupon_used : Bool

-- `new Payment(0, …, 'PENDING', new Date())`
abbrev pub new_payment : ℕ → PaymentData → Payment
new_payment now d = record {
  id = 0;
  order_id = d.order_id;
  user_id = d.user_id;
  total_amount = d.total_amount;
  discount_amount = d.discount_amount;
  final_amount = d.final_amount;
  coupon_used = d.coupon_used;
  status = "PENDING";
  paid_at = now;
  version = 0;
}

abbrev pub process_error : Exception → Exception
process_error e =
    if includes e.message invalid_payment_data
    then bad e.message
    else if includes e.message zero_payment
    then bad e.message
    else if includes e.message final_over_total
    then bad e.message
    else if includes e.message payment_processed
    then bad e.message
    else if includes e.message duplicate_payment
    then bad order_processed
    else internal server_error

module _ {env : Env} where
  unfoldable pub process_payment : PaymentData → Action env Payment
  process_payment d =
      catch
        (do
          now ← gets (λ s. s.now)
          processed ← lift (Payment.process_payment now (new_payment now d))
          Rows.save processed)
        (λ e. raise (process_error e))

  unfoldable pub find_by_order_id : ℕ → Action env (List Payment)
  find_by_order_id order_id = Rows.find_by_order_id order_id
