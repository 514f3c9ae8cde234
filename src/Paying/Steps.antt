-- ===== src/Paying/Steps.antt =====
-- The payment that is saved (src/infrastructure/services/payment.service.ts) and the order's new
-- status (src/infrastructure/services/order.service.ts).
use hanghae_plus_backend.Prelude.{
  ℕ, ◌≡◌, ◌≢◌, inl, inr, refl, sym, ap, ◌∙◌, String, none, some, arith, ◌==◌, if◌then◌else◌,
}
use hanghae_plus_backend.App.{State}
use hanghae_plus_backend.Database.Env.{Env}
use hanghae_plus_backend.App.{run-cases}
use hanghae_plus_backend.Failure.{ok, err, Exception}
use hanghae_plus_backend.Domain.Order.{Order, update_status}
use hanghae_plus_backend.Domain.Payment.{Payment}
use hanghae_plus_backend.Domain.Payment
use hanghae_plus_backend.Database.Entity.{OrderEntity}
use hanghae_plus_backend.Repository.Contract.Order.{order}
use hanghae_plus_backend.Repository.Contract.Order as OrderRow
use hanghae_plus_backend.Repository.Contract.Payment.{payment}
use hanghae_plus_backend.Repository.Contract.Payment as PaymentRow
use hanghae_plus_backend.Repository.Order as OrderRows
use hanghae_plus_backend.Repository.Order.{to_order, of_order}
use hanghae_plus_backend.Repository.Payment as PaymentRows
use hanghae_plus_backend.Repository.Payment.{of_payment}
use hanghae_plus_backend.Service.Payments.{PaymentData, new_payment, process_payment}
use hanghae_plus_backend.Service.Orders.{update_found, update_order_status}

-- The payment of the data, successful at `now`.
abbrev pub processed : ℕ → PaymentData → Payment
processed now d = record (new_payment now d) { status = "SUCCESS" }

module _ {env : Env} where
  -- A payment that is made is a new row, already successful; no other row of any table has changed.
  pub process_payment-new :
      (d : PaymentData) (s : State env) {p : Payment} {s' : State env}
      → process_payment d s ≡ (ok p, s')
      → (p ≡ record (processed s.now d) { id = p.id })
        × (p.id ≢ 0)
        × (payment s p.id ≡ none)
        × ((i : ℕ) → payment s' i ≡ (if p.id == i then some (of_payment p.id p) else payment s i))
        × (s' ≡ record s { payments = s'.payments })
  unfolding process_payment Payment.process_payment
  process_payment-new d s {p} {s'} h = elim (run-cases (PaymentRows.save (processed s.now d)) s) [
    | inr (x, s₁, failed) ↦ ground arith
    | inl (v, s₁, saved) ↦
        let same : (v ≡ p) × (s₁ ≡ s') = ground arith in
        let put = PaymentRow.save-new (processed s.now d) s {v = v} {s' = s₁} refl saved in
        (
          ground (arith, put.1),
          ground (arith, put.2),
          ground (arith, put.3),
          (λ i. ground (arith, put.0.row i, put.1)),
          ground (arith, put.0.frame),
        )
  ]

  -- A payment that is refused has changed nothing.
  pub process_payment-err :
      (d : PaymentData) (s : State env) {x : Exception} {s' : State env}
      → process_payment d s ≡ (err x, s')
      → s' ≡ s
  unfolding process_payment Payment.process_payment
  process_payment-err d s {x} {s'} h = elim (run-cases (PaymentRows.save (processed s.now d)) s) [
    | inl (v, s₁, saved) ↦ ground arith
    | inr (y, s₁, failed) ↦ ground (arith, PaymentRow.save-err (processed s.now d) s failed)
  ]

  -- An update of the status touches the status of the order's row only.
  pub update_order_status-row :
      (id : ℕ) (status : String) (s : State env) (e : OrderEntity) {o : Order} {s' : State env}
      → order s id ≡ some e
      → update_order_status id status s ≡ (ok o, s')
      → ((i : ℕ)
          → order s' i ≡ (if id == i then some (record e { status = status }) else order s i))
        × (s' ≡ record s { orders = s'.orders })
  unfolding update_order_status update_found OrderRows.find_by_id update_status
  update_order_status-row id status s e {o} {s'} found h =
      let own : e.id ≡ id = env.orders.find_one_key s.orders id e found in
      let known : id ≢ 0 = env.orders.find_one_pos s.orders id e found in
      let changed : Order = update_status (to_order e) status in
      elim (run-cases (OrderRows.save changed) s) [
        | inr (x, s₁, failed) ↦ ground arith
        | inl (v, s₁, saved) ↦
            let same : s' ≡ s₁ = ground arith in
            let put =
              OrderRow.save-known changed s e (λ z. known (sym own ∙ z))
                (ap (λ i. order s i) own ∙ found) saved in
            ((λ i. ground (arith, put.row i, own)), ground (arith, put.frame))
      ]
