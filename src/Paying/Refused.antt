-- ===== src/Paying/Refused.antt =====
-- `execute` of src/application/use-cases/payments/process-payment.use-case.ts, when the order cannot
-- be paid.
use hanghae_plus_backend.Prelude.{◌≡◌, ◌≢◌, none, some, [], ◌∷◌, ◌++◌, arith, eq_iff}
use hanghae_plus_backend.Prelude.Int.{◌≤ℤ◌}
use hanghae_plus_backend.App.{State}
use hanghae_plus_backend.Database.Env.{Env}
use hanghae_plus_backend.Failure.{
  err, Exception, bad, missing, order_missing, order_processed, insufficient_points, plain,
}
use hanghae_plus_backend.Dto.{ProcessPaymentDto}
use hanghae_plus_backend.Database.Entity.{UserEntity, OrderEntity}
use hanghae_plus_backend.EventBus.{publish}
use hanghae_plus_backend.Validation.Payment.{validate_order_exists, validate_payment_possible}
use hanghae_plus_backend.Repository.Contract.User.{user}
use hanghae_plus_backend.Repository.Contract.Order.{order}
use hanghae_plus_backend.Repository.Order as OrderRows
use hanghae_plus_backend.Repository.Order.{to_order}
use hanghae_plus_backend.Repository.User as UserRows
use hanghae_plus_backend.Service.Users
use hanghae_plus_backend.Service.Orders
use hanghae_plus_backend.UseCase.ProcessPayment.{
  payment_failed_event, pay, pay_found, fail_payment, execute,
}

module _ {env : Env} where
  -- No row of any table has changed, and the one event published is the order's failure to be paid.
  pub record Refused (e : OrderEntity) (x : Exception) (s s' : State env) : Type 0 where
    pub users : s'.users ≡ s.users
    pub products : s'.products ≡ s.products
    pub coupons : s'.coupons ≡ s.coupons
    pub orders : s'.orders ≡ s.orders
    pub payments : s'.payments ≡ s.payments
    pub published : s'.published ≡ s.published ++ payment_failed_event s.now (to_order e) x ∷ []

  pay-Refused :
      (e : OrderEntity) (x : Exception) (s : State env)
      → pay (to_order e) s ≡ (err x, s)
      → Refused e x s (pay_found (some (to_order e)) s).1
  unfolding pay_found fail_payment publish
  pay-Refused e x s h = record {
    users = ground arith;
    products = ground arith;
    coupons = ground arith;
    orders = ground arith;
    payments = ground arith;
    published = ground arith;
  }

  pay-processed :
      (e : OrderEntity) (u : UserEntity) (s : State env)
      → user s e.user_id ≡ some u
      → e.status ≢ "PENDING"
      → pay (to_order e) s ≡ (err (plain order_processed), s)
  unfolding pay validate_order_exists Users.validate_user UserRows.find_by_id
      validate_payment_possible
  pay-processed e u s known h = ground (arith, eq_iff e.status "PENDING")

  pay-short :
      (e : OrderEntity) (u : UserEntity) (s : State env)
      → user s e.user_id ≡ some u
      → e.status ≡ "PENDING"
      → ¬ (e.final_amount ≤ℤ u.points)
      → pay (to_order e) s ≡ (err (plain insufficient_points), s)
  unfolding pay validate_order_exists Users.validate_user UserRows.find_by_id
      validate_payment_possible
  pay-short e u s known pending short = ground (arith, eq_iff e.status "PENDING")

  -- A payment request for an unknown order is answered by 404 and changes nothing at all.
  pub process_payment-unknown :
      (dto : ProcessPaymentDto) (s : State env)
      → order s dto.order_id ≡ none
      → execute dto s ≡ (err (missing order_missing), s)
  unfolding execute Orders.find_by_id OrderRows.find_by_id pay_found
  process_payment-unknown dto s absent = ground arith

  -- A payment request for an order that is not pending is answered by 400 with the message of a
  -- processed order; no row of any table has changed, and the failure is published.
  pub process_payment-not_pending :
      (dto : ProcessPaymentDto) (e : OrderEntity) (u : UserEntity) (s : State env)
      → order s dto.order_id ≡ some e
      → user s e.user_id ≡ some u
      → e.status ≢ "PENDING"
      → ((execute dto s).0 ≡ err (bad order_processed))
        × Refused e (plain order_processed) s (execute dto s).1
  unfolding execute Orders.find_by_id OrderRows.find_by_id
  process_payment-not_pending dto e u s found known done =
      let refused = pay-processed e u s known done in
      let same : execute dto s ≡ pay_found (some (to_order e)) s = ground arith in
      (
        unfold pay_found fail_payment publish in ground arith,
        rw same (pay-Refused e (plain order_processed) s refused),
      )

  -- A payment request for a pending order whose final amount the user's points do not cover is
  -- answered by 400; no row of any table has changed, and the failure is published.
  pub process_payment-short :
      (dto : ProcessPaymentDto) (e : OrderEntity) (u : UserEntity) (s : State env)
      → order s dto.order_id ≡ some e
      → user s e.user_id ≡ some u
      → e.status ≡ "PENDING"
      → ¬ (e.final_amount ≤ℤ u.points)
      → ((execute dto s).0 ≡ err (bad insufficient_points))
        × Refused e (plain insufficient_points) s (execute dto s).1
  unfolding execute Orders.find_by_id OrderRows.find_by_id
  process_payment-short dto e u s found known pending short =
      let refused = pay-short e u s known pending short in
      let same : execute dto s ≡ pay_found (some (to_order e)) s = ground arith in
      (
        unfold pay_found fail_payment publish in ground arith,
        rw same (pay-Refused e (plain insufficient_points) s refused),
      )
