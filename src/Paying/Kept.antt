-- ===== src/Paying/Kept.antt =====
-- `execute` of src/application/use-cases/payments/process-payment.use-case.ts, when it throws: what it leaves
-- of a paid order and of its user.
use hanghae_plus_backend.Prelude.{
  ℕ, String, ◌≡◌, inl, inr, some, arith, ◌==◌, Option-cases, Bool-cases,
}
use hanghae_plus_backend.Prelude.Int.{ℤ, ◌-ℤ◌}
use hanghae_plus_backend.App.{State, run-cases}
use hanghae_plus_backend.Database.Env.{Env}
use hanghae_plus_backend.Failure.{Exception, err, Result-cases}
use hanghae_plus_backend.Dto.{ProcessPaymentDto}
use hanghae_plus_backend.EventBus.{publish}
use hanghae_plus_backend.Domain.Order.{Order, update_status}
use hanghae_plus_backend.Database.Entity.{UserEntity, OrderEntity}
use hanghae_plus_backend.Validation.Payment.{validate_order_exists, validate_payment_possible}
use hanghae_plus_backend.Repository.Contract.User.{user}
use hanghae_plus_backend.Repository.Contract.Order.{order}
use hanghae_plus_backend.Repository.Contract.Order as OrderRow
use hanghae_plus_backend.Repository.Order as OrderRows
use hanghae_plus_backend.Repository.Order.{to_order}
use hanghae_plus_backend.Repository.User as UserRows
use hanghae_plus_backend.Repository.User.{to_user}
use hanghae_plus_backend.Service.Payments
use hanghae_plus_backend.Service.Users
use hanghae_plus_backend.Service.Orders
use hanghae_plus_backend.Service.Orders.{update_found, update_order_status}
use hanghae_plus_backend.UseCase.ProcessPayment.{
  payment_data, pay, pay_found, fail_payment, execute,
}
use hanghae_plus_backend.Account.Change.{HasNow, use_points-HasNow}
use hanghae_plus_backend.Account.Errors.{use_points-err}
use hanghae_plus_backend.Paying.Steps.{process_payment-new, process_payment-err}

module _ {env : Env} where
  -- The order is paid, and its user has a row.
  pub record IsPaid (id user_id : ℕ) (s : State env) : Type 0 where
    pub entity : OrderEntity
    pub found : order s id ≡ some entity
    pub status : entity.status ≡ "PAID"
    pub owner : entity.user_id ≡ user_id
    pub payer : UserEntity
    pub has_payer : user s user_id ≡ some payer

  abbrev pub Known : ℕ → State env → Type 0
  Known user_id s = (u : UserEntity) × (user s user_id ≡ some u)

  update_order_status-err :
      (id : ℕ) (status : String) (s : State env) {x : Exception} {s' : State env}
      → update_order_status id status s ≡ (err x, s')
      → s' ≡ s
  unfolding update_order_status update_found OrderRows.find_by_id
  update_order_status-err id status s {x} {s'} h = elim (Option-cases (order s id)) [
    | inl absent ↦ ground arith
    | inr (e, found) ↦
        OrderRow.save-err (update_status (to_order e) status) s {e = x} {s' = s'} (ground arith)
  ]

  -- A change of the points of one user keeps every user known.
  pub HasNow-Known :
      (id : ℕ) (u : UserEntity) (points : ℤ) (s s' : State env)
      → HasNow id u points s s'
      → (i : ℕ) → Known i s
      → Known i s'
  HasNow-Known id u points s s' h i (v, known) = elim (Bool-cases (id == i)) [
    | inl same ↦ (record u { points = points }, ground (arith, h.row i))
    | inr other ↦ (v, ground (arith, h.row i))
  ]

  -- A payment that throws has changed no order and lost no user.
  pay-err :
      (e : OrderEntity) (s : State env) {x : Exception} {s' : State env}
      → pay (to_order e) s ≡ (err x, s')
      → (s'.orders ≡ s.orders) × ((i : ℕ) → Known i s → Known i s')
  unfolding pay validate_order_exists Users.validate_user UserRows.find_by_id publish
  pay-err e s {x} {s'} h =
      let o : Order = to_order e in
      let still : s' ≡ s → (s'.orders ≡ s.orders) × ((i : ℕ) → Known i s → Known i s') =
        λ same. (ground arith, λ i (v, known). (v, ground arith)) in
      elim (Option-cases (user s e.user_id)) [
        | inl absent ↦ still (ground arith)
        | inr (u, has_payer) ↦ elim (Result-cases (validate_payment_possible o (to_user u))) [
          | inl (y, refused) ↦ still (ground arith)
          | inr (_, possible) ↦ elim (run-cases (Payments.process_payment (payment_data o)) s) [
            | inr (y, s₁, failed) ↦
                let back = process_payment-err (payment_data o) s failed in
                still (ground (arith, back))
            | inl (q, s₁, pays) ↦
                let (_, _, _, _, kept) = process_payment-new (payment_data o) s pays in
                elim (run-cases (Users.use_points e.user_id e.final_amount) s₁) [
                  | inr (y, s₂, failed) ↦
                      let back = (use_points-err e.user_id e.final_amount s₁ failed).0 in
                      (ground (arith, back, kept), λ i (v, known). (v, ground (arith, back, kept)))
                  | inl (v, s₂, uses) ↦
                      elim (run-cases (Orders.update_order_status e.id "PAID") s₂) [
                        | inl (o₃, s₃, updates) ↦ ground arith
                        | inr (y, s₃, failed) ↦
                            let back = update_order_status-err e.id "PAID" s₂ failed in
                            let (payer, _, _, points) =
                              use_points-HasNow e.user_id e.final_amount s₁ uses in
                            let same : s' ≡ s₂ = ground (arith, back) in
                            (
                              ground (arith, same, points.frame, kept),
                              λ i (w, known). rw same (
                                  HasNow-Known e.user_id payer (payer.points -ℤ e.final_amount) s₁
                                    s₂ points i (w, ground (arith, kept))),
                            )
                      ]
                ]
          ]
        ]
      ]

  -- So has a payment request that throws.
  pub process_payment-kept :
      (dto : ProcessPaymentDto) (s : State env) {x : Exception} {s' : State env}
      → execute dto s ≡ (err x, s')
      → (s'.orders ≡ s.orders) × ((i : ℕ) → Known i s → Known i s')
  unfolding execute pay_found fail_payment Orders.find_by_id OrderRows.find_by_id publish
  process_payment-kept dto s {x} {s'} h = elim (Option-cases (order s dto.order_id)) [
    | inl absent ↦ (ground arith, λ i (v, known). (v, ground arith))
    | inr (e, found) ↦ elim (run-cases (pay (to_order e)) s) [
      | inl (q, s₁, pays) ↦ ground arith
      | inr (y, s₁, failed) ↦
          let kept = pay-err e s {x = y} {s' = s₁} (ground arith) in
          (ground (arith, kept.0), λ i known. let (v, after) = kept.1 i known in (v, ground arith))
    ]
  ]
