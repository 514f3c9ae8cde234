-- ===== src/Repository/Contract/Coupon.antt =====
-- src/infrastructure/repositories/coupon.repository.ts: what a `save` of a known coupon does.
use hanghae_plus_backend.Prelude.{
  ℕ, ◌≡◌, ◌≢◌, inl, inr, refl, sym, ◌∙◌, Option, none, some, arith, ◌==◌, if◌then◌else◌,
  Option-cases,
}
use hanghae_plus_backend.App.{State}
use hanghae_plus_backend.Database.Env.{Env}
use hanghae_plus_backend.Failure.{ok, err, Exception, Result-cases}
use hanghae_plus_backend.Domain.Coupon.{Coupon}
use hanghae_plus_backend.Database.Entity.{CouponEntity}
use hanghae_plus_backend.Repository.Coupon.{save, of_coupon}

module _ {env : Env} where
  -- The row of a coupon.
  abbrev pub coupon : State env → ℕ → Option CouponEntity
  coupon s i = env.coupons.find_one s.coupons i

  -- A save of a known coupon puts its columns into its row and touches nothing else.
  pub record Saved (c : Coupon) (s s' : State env) : Type 0 where
    pub row : (i : ℕ) → coupon s' i ≡ (if c.id == i then some (of_coupon c.id c) else coupon s i)
    pub frame : s' ≡ record s { coupons = s'.coupons }

  pub save-Saved :
      (c : Coupon) (s : State env) (entity : CouponEntity) {d : Coupon} {s' : State env}
      → c.id ≢ 0
      → coupon s c.id ≡ some entity
      → save c s ≡ (ok d, s')
      → Saved c s s'
  unfolding save
  save-Saved c s entity {d} {s'} known found h =
      let own = env.coupons.find_one_key s.coupons c.id entity found in
      let new : CouponEntity = of_coupon entity.id c in
      elim (Result-cases (env.coupons.save s.coupons new)) [
        | inl (e, failed) ↦ ground arith
        | inr ((e, rows), saved) ↦
            let same = env.coupons.save_update s.coupons new saved (λ z. known (sym own ∙ z)) in
            record {
              row = λ i. ground (arith, same, own, env.coupons.find_one-save s.coupons new saved i);
              frame = ground arith;
            }
      ]

  -- A new coupon gets a fresh identifier, and is otherwise stored as it is.
  pub save-new :
      (c : Coupon) (s : State env) {d : Coupon} {s' : State env}
      → c.id ≡ 0
      → save c s ≡ (ok d, s')
      → ((i : ℕ) → coupon s' i ≡ (if d.id == i then some (of_coupon d.id c) else coupon s i))
        × (d ≡ record c { id = d.id })
        × (d.id ≢ 0)
        × (coupon s d.id ≡ none)
        × (s' ≡ record s { coupons = s'.coupons })
  unfolding save
  save-new c s {d} {s'} unset h =
      let new : CouponEntity = of_coupon 0 c in
      elim (Result-cases (env.coupons.save s.coupons new)) [
        | inl (e, failed) ↦ ground arith
        | inr ((e, rows), saved) ↦
            let fresh = env.coupons.save_insert s.coupons new saved refl in
            (
              (λ i. ground (arith, fresh, env.coupons.find_one-save s.coupons new saved i)),
              ground (arith, fresh),
              ground (arith, fresh),
              ground (arith, fresh),
              ground arith,
            )
      ]

  pub save-err :
      (c : Coupon) (s : State env) {e : Exception} {s' : State env}
      → save c s ≡ (err e, s')
      → s' ≡ s
  unfolding save
  save-err c s h = elim (Option-cases (coupon s c.id)) [
    | inl absent ↦ ground arith
    | inr (entity, found) ↦ ground arith
  ]
