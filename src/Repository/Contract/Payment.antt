-- ===== src/Repository/Contract/Payment.antt =====
-- src/infrastructure/repositories/payment.repository.ts: what a `save` of a new payment does.
use hanghae_plus_backend.Prelude.{
  ℕ, ◌≡◌, ◌≢◌, inl, inr, refl, Option, none, some, arith, ◌==◌, if◌then◌else◌, Option-cases,
}
use hanghae_plus_backend.App.{State}
use hanghae_plus_backend.Database.Env.{Env}
use hanghae_plus_backend.Failure.{ok, err, Exception, Result-cases}
use hanghae_plus_backend.Domain.Payment.{Payment}
use hanghae_plus_backend.Database.Entity.{PaymentEntity}
use hanghae_plus_backend.Repository.Payment.{save, to_payment, of_payment}

module _ {env : Env} where
  -- The row of a payment.
  abbrev pub payment : State env → ℕ → Option PaymentEntity
  payment s i = env.payments.find_one s.payments i

  -- One row of the table is `entity` now, and nothing else has changed.
  pub record Saved (entity : PaymentEntity) (s s' : State env) : Type 0 where
    pub row : (i : ℕ) → payment s' i ≡ (if entity.id == i then some entity else payment s i)
    pub frame : s' ≡ record s { payments = s'.payments }

  -- A new payment gets a fresh identifier, and is otherwise stored as it is.
  pub save-new :
      (p : Payment) (s : State env) {v : Payment} {s' : State env}
      → p.id ≡ 0
      → save p s ≡ (ok v, s')
      → Saved (of_payment v.id p) s s'
        × (v ≡ to_payment (of_payment v.id p))
        × (v.id ≢ 0)
        × (payment s v.id ≡ none)
  unfolding save
  save-new p s {v} {s'} unset h =
      let new : PaymentEntity = of_payment 0 p in
      elim (Result-cases (env.payments.save s.payments new)) [
        | inl (e, failed) ↦ ground arith
        | inr ((e, rows), saved) ↦
            let fresh = env.payments.save_insert s.payments new saved refl in
            (
              record {
                row = λ i. ground (arith, fresh, env.payments.find_one-save s.payments new saved i);
                frame = ground arith;
              },
              ground (arith, fresh),
              ground (arith, fresh),
              ground (arith, fresh),
            )
      ]

  pub save-err :
      (p : Payment) (s : State env) {e : Exception} {s' : State env}
      → save p s ≡ (err e, s')
      → s' ≡ s
  unfolding save
  save-err p s h = elim (Option-cases (payment s p.id)) [
    | inl absent ↦ ground arith
    | inr (entity, found) ↦ ground arith
  ]
