-- ===== src/Repository/Contract/Order.antt =====
-- src/infrastructure/repositories/order.repository.ts: what a `save` of a new order and of a known
-- one does.
use hanghae_plus_backend.Prelude.{
  ℕ, ◌≡◌, ◌≢◌, inl, inr, refl, sym, ◌∙◌, Option, none, some, arith, ◌==◌, if◌then◌else◌,
  Option-cases,
}
use hanghae_plus_backend.App.{State}
use hanghae_plus_backend.Database.Env.{Env}
use hanghae_plus_backend.Failure.{ok, err, Exception, Result-cases}
use hanghae_plus_backend.Domain.Order.{Order}
use hanghae_plus_backend.Database.Entity.{OrderEntity}
use hanghae_plus_backend.Repository.Order.{save, to_order, of_order}

module _ {env : Env} where
  -- The row of an order.
  abbrev pub order : State env → ℕ → Option OrderEntity
  order s i = env.orders.find_one s.orders i

  -- One row of the table is `entity` now, and nothing else has changed.
  pub record Saved (entity : OrderEntity) (s s' : State env) : Type 0 where
    pub row : (i : ℕ) → order s' i ≡ (if entity.id == i then some entity else order s i)
    pub frame : s' ≡ record s { orders = s'.orders }

  -- A new order gets a fresh identifier, and is otherwise stored as it is.
  pub save-new :
      (o : Order) (s : State env) {v : Order} {s' : State env}
      → o.id ≡ 0
      → save o s ≡ (ok v, s')
      → Saved (of_order v.id o.user_id o) s s'
        × (v ≡ to_order (of_order v.id o.user_id o))
        × (v.id ≢ 0)
        × (order s v.id ≡ none)
  unfolding save
  save-new o s {v} {s'} unset h =
      let new : OrderEntity = of_order 0 o.user_id o in
      elim (Result-cases (env.orders.save s.orders new)) [
        | inl (e, failed) ↦ ground arith
        | inr ((e, rows), saved) ↦
            let fresh = env.orders.save_insert s.orders new saved refl in
            (
              record {
                row = λ i. ground (arith, fresh, env.orders.find_one-save s.orders new saved i);
                frame = ground arith;
              },
              ground (arith, fresh),
              ground (arith, fresh),
              ground (arith, fresh),
            )
      ]

  -- A known order keeps its identifier and its user.
  pub save-known :
      (o : Order) (s : State env) (entity : OrderEntity) {v : Order} {s' : State env}
      → o.id ≢ 0
      → order s o.id ≡ some entity
      → save o s ≡ (ok v, s')
      → Saved (of_order o.id entity.user_id o) s s'
  unfolding save
  save-known o s entity {v} {s'} known found h =
      let own = env.orders.find_one_key s.orders o.id entity found in
      let new : OrderEntity = of_order entity.id entity.user_id o in
      elim (Result-cases (env.orders.save s.orders new)) [
        | inl (e, failed) ↦ ground arith
        | inr ((e, rows), saved) ↦
            let same = env.orders.save_update s.orders new saved (λ z. known (sym own ∙ z)) in
            record {
              row = λ i. ground (arith, same, own, env.orders.find_one-save s.orders new saved i);
              frame = ground arith;
            }
      ]

  pub save-err :
      (o : Order) (s : State env) {e : Exception} {s' : State env} → save o s ≡ (err e, s') → s' ≡ s
  unfolding save
  save-err o s h = elim (Option-cases (order s o.id)) [
    | inl absent ↦ ground arith
    | inr (entity, found) ↦ ground arith
  ]
