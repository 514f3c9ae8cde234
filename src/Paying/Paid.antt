-- ===== src/Paying/Paid.antt =====
-- `execute` of src/application/use-cases/payments/process-payment.use-case.ts, when it returns.
use hanghae_plus_backend.Prelude.{
  ℕ, ◌≡◌, ◌≢◌, inl, inr, ap, ◌∙◌, none, some, [], ◌∷◌, ◌++◌, arith, ◌==◌, if◌then◌else◌,
  Option-cases,
}
use hanghae_plus_backend.Prelude.Int.{pos, ◌-ℤ◌, ◌≤ℤ◌}
use hanghae_plus_backend.App.{State}
use hanghae_plus_backend.Database.Env.{Env}
use hanghae_plus_backend.App.{run-cases}
use hanghae_plus_backend.Failure.{ok, Result-cases}
use hanghae_plus_backend.Dto.{ProcessPaymentDto}
use hanghae_plus_backend.Domain.Order.{Order}
use hanghae_plus_backend.Domain.Payment.{Payment}
use hanghae_plus_backend.Database.Entity.{UserEntity, OrderEntity}
use hanghae_plus_backend.EventBus.{publish}
use hanghae_plus_backend.Validation.Payment.{validate_order_exists, validate_payment_possible}
use hanghae_plus_backend.Validation.Points.{validate_payment_possible-eq-ok}
use hanghae_plus_backend.Repository.Contract.User.{user}
use hanghae_plus_backend.Repository.Contract.Order.{order}
use hanghae_plus_backend.Repository.Contract.Payment.{payment}
use hanghae_plus_backend.Repository.Order as OrderRows
use hanghae_plus_backend.Repository.Order.{to_order}
use hanghae_plus_backend.Repository.User as UserRows
use hanghae_plus_backend.Repository.User.{to_user}
use hanghae_plus_backend.Repository.Payment.{of_payment}
use hanghae_plus_backend.Service.Payments
use hanghae_plus_backend.Service.Users
use hanghae_plus_backend.Service.Orders
use hanghae_plus_backend.UseCase.ProcessPayment.{
  completed_event, payment_data, pay, pay_found, fail_payment, execute,
}
use hanghae_plus_backend.Account.Change.{use_points-HasNow}
use hanghae_plus_backend.Paying.Steps.{processed, process_payment-new, update_order_status-row}

module _ {env : Env} where
  -- The payment `p` of the order in row `e`, made.
  pub record Paid (e : OrderEntity) (s s' : State env) (p : Payment) : Type 0 where
    -- The order was pending and is paid; no other order has changed.
    pub found : order s e.id ≡ some e
    pub pending : e.status ≡ "PENDING"
    pub order_row :
        (i : ℕ)
        → order s' i ≡ (if e.id == i then some (record e { status = "PAID" }) else order s i)
    -- The final amount, not negative, was covered by the user's points and is taken off them; no
    -- other user has changed.
    pub payer : UserEntity
    pub has_payer : user s e.user_id ≡ some payer
    pub nonneg : pos 0 ≤ℤ e.final_amount
    pub covered : e.final_amount ≤ℤ payer.points
    pub user_row :
        (i : ℕ)
        → user s' i ≡ (
            if e.user_id == i
            then some (record payer { points = payer.points -ℤ e.final_amount })
            else user s i)
    -- The payment is a new row with the order's amounts; no other payment has changed.
    pub made : p ≡ record (processed s.now (payment_data (to_order e))) { id = p.id }
    pub fresh : (p.id ≢ 0) × (payment s p.id ≡ none)
    pub payment_row :
        (i : ℕ) → payment s' i ≡ (if p.id == i then some (of_payment p.id p) else payment s i)
    pub products : s'.products ≡ s.products
    pub coupons : s'.coupons ≡ s.coupons
    pub published : s'.published ≡ s.published ++ completed_event s.now (to_order e) ∷ []

  pay-Paid :
      (id : ℕ) (e : OrderEntity) (s : State env) {p : Payment} {s' : State env}
      → order s id ≡ some e
      → pay (to_order e) s ≡ (ok p, s')
      → Paid e s s' p
  unfolding pay validate_order_exists Users.validate_user UserRows.find_by_id publish
  pay-Paid id e s {p} {s'} found h =
      let o : Order = to_order e in
      let own : e.id ≡ id = env.orders.find_one_key s.orders id e found in
      elim (Option-cases (user s e.user_id)) [
        | inl absent ↦ ground arith
        | inr (u, has_payer) ↦ elim (Result-cases (validate_payment_possible o (to_user u))) [
          | inl (x, refused) ↦ ground arith
          | inr (_, possible) ↦
              let (pending, enough) =
                (validate_payment_possible-eq-ok o (to_user u)).0 (ground (arith, possible)) in
              elim (run-cases (Payments.process_payment (payment_data o)) s) [
                | inr (x, s₁, failed) ↦ ground arith
                | inl (q, s₁, pays) ↦
                    elim (run-cases (Users.use_points e.user_id e.final_amount) s₁) [
                      | inr (x, s₂, failed) ↦ ground arith
                      | inl (v, s₂, uses) ↦
                          elim (run-cases (Orders.update_order_status e.id "PAID") s₂) [
                            | inr (x, s₃, failed) ↦ ground arith
                            | inl (o₃, s₃, updates) ↦
                                let (made, known, unknown, payments, kept) =
                                  process_payment-new (payment_data o) s pays in
                                let (payer, nonneg, covered, points) =
                                  use_points-HasNow e.user_id e.final_amount s₁ uses in
                                let before : order s₂ e.id ≡ some e =
                                  ground (arith, points.frame, kept, own) in
                                let paid =
                                  update_order_status-row e.id "PAID" s₂ e before updates in
                                let same : p ≡ q = ground arith in
                                record {
                                  found = ap (λ i. order s i) own ∙ found;
                                  pending = pending;
                                  order_row = λ i. ground (arith, paid.0 i, points.frame, kept);
                                  payer = payer;
                                  has_payer = ground (arith, points.found, kept);
                                  nonneg = nonneg;
                                  covered = covered;
                                  user_row = λ i. ground (arith, points.row i, paid.1, kept);
                                  made = rw same made;
                                  fresh = (rw same known, rw same unknown);
                                  payment_row =
                                      λ i. ground (arith, payments i, paid.1, points.frame, same);
                                  products = ground (arith, paid.1, points.frame, kept);
                                  coupons = ground (arith, paid.1, points.frame, kept);
                                  published = ground (arith, paid.1, points.frame, kept);
                                }
                          ]
                    ]
              ]
        ]
      ]

  -- A payment request that is answered had a pending order whose user's points cover its final
  -- amount: the order is paid now, the points are lower by exactly that amount, and a new successful
  -- payment has the order's amounts. No other row of any table has changed, and
  -- `PaymentCompletedEvent` is the one event published.
  pub process_payment-Paid :
      (dto : ProcessPaymentDto) (s : State env) {p : Payment} {s' : State env}
      → execute dto s ≡ (ok p, s')
      → (e : OrderEntity) × (e.id ≡ dto.order_id) × Paid e s s' p
  unfolding execute pay_found fail_payment Orders.find_by_id OrderRows.find_by_id publish
  process_payment-Paid dto s {p} {s'} h = elim (Option-cases (order s dto.order_id)) [
    | inl absent ↦ ground arith
    | inr (e, found) ↦ elim (run-cases (pay (to_order e)) s) [
      | inr (x, s₁, failed) ↦ ground arith
      | inl (q, s₁, pays) ↦ (
        e,
        env.orders.find_one_key s.orders dto.order_id e found,
        pay-Paid dto.order_id e s {p = p} {s' = s'} found (ground arith),
      )
    ]
  ]
