-- ===== src/Paying/Once.antt =====
-- `execute` of src/application/use-cases/payments/process-payment.use-case.ts for an order that is paid, when other
-- requests and compensations come in between.
use hanghae_plus_backend.Prelude.{ℕ, ap, ◌≡◌, ◌≢◌, refl, ◌∙◌, some, arith, All, eq_iff}
use hanghae_plus_backend.Prelude.Int.{◌-ℤ◌}
use hanghae_plus_backend.App.{State}
use hanghae_plus_backend.Database.Env.{Env}
use hanghae_plus_backend.Failure.{ok, err, bad, plain, order_processed}
use hanghae_plus_backend.Dto.{ProcessPaymentDto, ChargePointsDto, CreateOrderDto}
use hanghae_plus_backend.Event.{PaymentFailedEvent, OrderFailedEvent}
use hanghae_plus_backend.Domain.Payment.{Payment}
use hanghae_plus_backend.Database.Entity.{OrderEntity}
use hanghae_plus_backend.Repository.Contract.User.{user}
use hanghae_plus_backend.Repository.Contract.Order.{order}
use hanghae_plus_backend.UseCase.CreateOrder
use hanghae_plus_backend.UseCase.Points
use hanghae_plus_backend.UseCase.ProcessPayment.{execute}
use hanghae_plus_backend.Handler.PaymentFailed
use hanghae_plus_backend.Handler.OrderFailed
use hanghae_plus_backend.Compensation.Stock.{IsNamed}
use hanghae_plus_backend.Paying.Paid.{process_payment-Paid}
use hanghae_plus_backend.Paying.Refused.{Refused, process_payment-not_pending}
use hanghae_plus_backend.Paying.Kept.{IsPaid}
use hanghae_plus_backend.Paying.Stays.{
  kept-IsPaid, pay_request-IsPaid, charge_request-IsPaid, order_request-IsPaid,
  payment_failed-IsPaid, order_failed-IsPaid,
}

module _ {env : Env} where
  -- What may come between two payment requests: time passes; payments, charges of points and orders are
  -- requested, and answered or refused; and compensations of events return, whose items name products.
  pub data Later (s : State env) : State env → Type 0 where
    now : Later s s
    pass : {v : State env} (time : ℕ) → Later s v → Later s (record v { now = time })
    pay_request : {v : State env} (dto : ProcessPaymentDto) → Later s v → Later s (execute dto v).1
    charge_request :
        {v : State env} (id : ℕ) (dto : ChargePointsDto)
        → Later s v
        → Later s (Points.execute id dto v).1
    order_request :
        {v : State env} (dto : CreateOrderDto) → Later s v → Later s (CreateOrder.execute dto v).1
    payment_compensation :
        {v w : State env} (event : PaymentFailedEvent)
        → All IsNamed event.items
        → PaymentFailed.handle event v ≡ (ok tt, w)
        → Later s v
        → Later s w
    order_compensation :
        {v w : State env} (event : OrderFailedEvent)
        → All IsNamed event.items
        → OrderFailed.handle event v ≡ (ok tt, w)
        → Later s v
        → Later s w

  -- The order stays paid, and its user known.
  Later-IsPaid :
      (id user_id : ℕ) {s v : State env} → Later s v → IsPaid id user_id s → IsPaid id user_id v
  Later-IsPaid id user_id now h = h
  Later-IsPaid id user_id (pass {v} time past) h =
      kept-IsPaid id user_id v (record v { now = time }) refl (λ i known. known)
        (Later-IsPaid id user_id past h)
  Later-IsPaid id user_id (pay_request {v} dto past) h =
      pay_request-IsPaid id user_id dto v (Later-IsPaid id user_id past h)
  Later-IsPaid id user_id (charge_request {v} payer dto past) h =
      charge_request-IsPaid id user_id payer dto v (Later-IsPaid id user_id past h)
  Later-IsPaid id user_id (order_request {v} dto past) h =
      order_request-IsPaid id user_id dto v (Later-IsPaid id user_id past h)
  Later-IsPaid id user_id (payment_compensation {v} event named done past) h =
      payment_failed-IsPaid id user_id event v named done (Later-IsPaid id user_id past h)
  Later-IsPaid id user_id (order_compensation {v} event named done past) h =
      order_failed-IsPaid id user_id event v named done (Later-IsPaid id user_id past h)

  -- An order is paid once: after a payment request that was answered, and any sequence of payments,
  -- charges of points and orders requested, answered or refused, of compensations of events, whose
  -- items name products, that return, and of time passing, a request for the same order is answered
  -- by 400, touches no table, and publishes the failure of that order.
  pub process_payment-once :
      (dto : ProcessPaymentDto) (s : State env) {p : Payment} {s' v : State env}
      → execute dto s ≡ (ok p, s')
      → Later s' v
      → (e : OrderEntity) × (order v dto.order_id ≡ some e)
        × ((execute dto v).0 ≡ err (bad order_processed))
        × Refused e (plain order_processed) v (execute dto v).1
  process_payment-once dto s {p} {s'} {v} h past =
      let (e, own, paid) = process_payment-Paid dto s h in
      let first : IsPaid dto.order_id e.user_id s' = record {
        entity = record e { status = "PAID" };
        found = ground (arith, paid.order_row dto.order_id);
        status = refl;
        owner = refl;
        payer = record paid.payer { points = paid.payer.points -ℤ e.final_amount };
        has_payer = ground (arith, paid.user_row e.user_id);
      } in
      let still = Later-IsPaid dto.order_id e.user_id past first in
      let done : still.entity.status ≢ "PENDING" =
        λ z. ground (arith, still.status, eq_iff "PAID" "PENDING") in
      let again =
        process_payment-not_pending dto still.entity still.payer v still.found
          (ap (λ i. user v i) still.owner ∙ still.has_payer) done in
      (still.entity, still.found, again.0, again.1)
