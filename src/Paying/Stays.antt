-- ===== src/Paying/Stays.antt =====
-- What comes after a payment of src/application/use-cases/payments/process-payment.use-case.ts, step by step: the
-- order stays paid.
use hanghae_plus_backend.Prelude.{
  ℕ, List, Option, ◌≡◌, ◌≢◌, inl, inr, arith, ◌==◌, All, Bool-cases, eq_iff,
}
use hanghae_plus_backend.Prelude.Int.{◌-ℤ◌, ◌+ℤ◌}
use hanghae_plus_backend.App.{State, run-cases}
use hanghae_plus_backend.Database.Env.{Env}
use hanghae_plus_backend.Failure.{ok}
use hanghae_plus_backend.Dto.{ProcessPaymentDto, ChargePointsDto, CreateOrderDto}
use hanghae_plus_backend.Event.{PaymentFailedEvent, OrderFailedEvent, EventItem}
use hanghae_plus_backend.Service.Users
use hanghae_plus_backend.UseCase.CreateOrder
use hanghae_plus_backend.UseCase.Points
use hanghae_plus_backend.UseCase.ProcessPayment.{execute}
use hanghae_plus_backend.Handler.PaymentFailed
use hanghae_plus_backend.Handler.OrderFailed
use hanghae_plus_backend.Handler.Restore.{compensate}
use hanghae_plus_backend.Compensation.Stock.{IsNamed}
use hanghae_plus_backend.Compensation.Effect.{compensate-rows}
use hanghae_plus_backend.Account.Change.{charge_points-HasNow}
use hanghae_plus_backend.Account.Errors.{charge_points-err}
use hanghae_plus_backend.Ordering.Created.{create_order-Created}
use hanghae_plus_backend.Ordering.Failed.{create_order-Abandoned}
use hanghae_plus_backend.Paying.Paid.{process_payment-Paid}
use hanghae_plus_backend.Paying.Kept.{IsPaid, Known, HasNow-Known, process_payment-kept}

module _ {env : Env} where
  -- A request that leaves the orders and loses no user leaves the order paid.
  pub kept-IsPaid :
      (id user_id : ℕ) (s s' : State env)
      → s'.orders ≡ s.orders
      → ((i : ℕ) → Known i s → Known i s')
      → IsPaid id user_id s
      → IsPaid id user_id s'
  kept-IsPaid id user_id s s' orders users h =
      let (u, known) = users user_id (h.payer, h.has_payer) in
      record {
        entity = h.entity;
        found = ground (arith, h.found);
        status = h.status;
        owner = h.owner;
        payer = u;
        has_payer = known;
      }

  pub pay_request-IsPaid :
      (id user_id : ℕ) (dto : ProcessPaymentDto) (s : State env)
      → IsPaid id user_id s
      → IsPaid id user_id (execute dto s).1
  pay_request-IsPaid id user_id dto s h = elim (run-cases (execute dto) s) [
    | inr (x, s₁, failed) ↦
        let kept = process_payment-kept dto s failed in
        rw failed (kept-IsPaid id user_id s s₁ kept.0 kept.1 h)
    | inl (p, s₁, pays) ↦
        let (e, own, paid) = process_payment-Paid dto s pays in
        let other : e.id ≢ id = λ z.
          ground (arith, h.found, h.status, paid.found, paid.pending, eq_iff "PAID" "PENDING") in
        let (u, known) : Known user_id s₁ = elim (Bool-cases (e.user_id == user_id)) [
          | inl same ↦ (
            record paid.payer { points = paid.payer.points -ℤ e.final_amount },
            ground (arith, paid.user_row user_id),
          )
          | inr apart ↦ (h.payer, ground (arith, h.has_payer, paid.user_row user_id))
        ] in
        rw pays (record {
          entity = h.entity;
          found = ground (arith, h.found, paid.order_row id);
          status = h.status;
          owner = h.owner;
          payer = u;
          has_payer = known;
        })
  ]

  pub charge_request-IsPaid :
      (id user_id payer : ℕ) (dto : ChargePointsDto) (s : State env)
      → IsPaid id user_id s
      → IsPaid id user_id (Points.execute payer dto s).1
  unfolding Points.execute
  charge_request-IsPaid id user_id payer dto s h =
      elim (run-cases (Users.charge_points payer dto) s) [
        | inr (x, s₁, failed) ↦
            let same = (charge_points-err payer dto s failed).0 in
            kept-IsPaid id user_id s (Points.execute payer dto s).1 (ground (arith, same))
              (λ i (v, known). (v, ground (arith, same))) h
        | inl (w, s₁, charged) ↦
            let (u, _, _, points) = charge_points-HasNow payer dto s charged in
            let known = HasNow-Known payer u (u.points +ℤ dto.amount) s s₁ points in
            kept-IsPaid id user_id s (Points.execute payer dto s).1 (ground (arith, points.frame))
              (λ i before. let (v, after) = known i before in (v, ground (arith, after))) h
      ]

  pub order_request-IsPaid :
      (id user_id : ℕ) (dto : CreateOrderDto) (s : State env)
      → IsPaid id user_id s
      → IsPaid id user_id (CreateOrder.execute dto s).1
  order_request-IsPaid id user_id dto s h = elim (run-cases (CreateOrder.execute dto) s) [
    | inr (x, s₁, failed) ↦
        let left = create_order-Abandoned dto s failed in
        rw failed (
          kept-IsPaid id user_id s s₁ left.orders (λ i (v, known). (v, ground (arith, left.users)))
            h)
    | inl (o, s₁, created) ↦
        let made = create_order-Created dto s created in
        let other : o.id ≢ id = λ z. ground (arith, h.found, made.fresh) in
        rw created (record {
          entity = h.entity;
          found = ground (arith, h.found, made.row id);
          status = h.status;
          owner = h.owner;
          payer = h.payer;
          has_payer = ground (arith, h.has_payer, made.users);
        })
  ]

  compensate-IsPaid :
      (id user_id : ℕ) (items : List EventItem) (coupon_id : Option ℕ) (s : State env)
      {s' : State env}
      → All IsNamed items
      → compensate items coupon_id s ≡ (ok tt, s')
      → IsPaid id user_id s
      → IsPaid id user_id s'
  compensate-IsPaid id user_id items coupon_id s {s'} named h paid =
      let (_, _, kept) = compensate-rows items coupon_id s {s' = s'} named h in
      kept-IsPaid id user_id s s' (ground (arith, kept)) (λ i (v, known). (v, ground (arith, kept)))
        paid

  pub payment_failed-IsPaid :
      (id user_id : ℕ) (event : PaymentFailedEvent) (s : State env) {s' : State env}
      → All IsNamed event.items
      → PaymentFailed.handle event s ≡ (ok tt, s')
      → IsPaid id user_id s
      → IsPaid id user_id s'
  unfolding PaymentFailed.handle
  payment_failed-IsPaid id user_id event s {s'} named h paid = elim (Bool-cases event.is_timeout) [
    | inr answered ↦
        let same : s' ≡ s = ground arith in
        kept-IsPaid id user_id s s' (ground (arith, same))
          (λ i (v, known). (v, ground (arith, same))) paid
    | inl timeout ↦ elim (run-cases (compensate event.items event.coupon_id) s) [
      | inr (x, s₁, failed) ↦ ground arith
      | inl (_, s₁, done) ↦
          compensate-IsPaid id user_id event.items event.coupon_id s {s' = s'} named (ground arith)
            paid
    ]
  ]

  pub order_failed-IsPaid :
      (id user_id : ℕ) (event : OrderFailedEvent) (s : State env) {s' : State env}
      → All IsNamed event.items
      → OrderFailed.handle event s ≡ (ok tt, s')
      → IsPaid id user_id s
      → IsPaid id user_id s'
  unfolding OrderFailed.handle
  order_failed-IsPaid id user_id event s {s'} named h paid =
      elim (run-cases (compensate event.items event.coupon_id) s) [
        | inr (x, s₁, failed) ↦ ground arith
        | inl (_, s₁, done) ↦
            compensate-IsPaid id user_id event.items event.coupon_id s {s' = s'} named
              (ground arith) paid
      ]
