-- ===== src/Compensation/Effect.antt =====
-- The whole compensation of src/infrastructure/event-handlers: stock, coupon and ranking.
use hanghae_plus_backend.Prelude.{
  ◌==◌, Bool-cases, ℕ, ◌≡◌, ◌≢◌, inl, inr, refl, sym, ◌∙◌, false, Option, none, some, List, [], ◌∷◌,
  arith, ◌==◌, if◌then◌else◌, Bool-cases, Option-cases, All,
}
use hanghae_plus_backend.App.{State, for_each}
use hanghae_plus_backend.Database.Env.{Env}
use hanghae_plus_backend.App.{run-cases}
use hanghae_plus_backend.Failure.{ok}
use hanghae_plus_backend.Domain.Coupon.{Coupon, revert_usage}
use hanghae_plus_backend.Database.Entity.{CouponEntity}
use hanghae_plus_backend.Database.Redis.{Key}
use hanghae_plus_backend.Event.{EventItem}
use hanghae_plus_backend.Repository.Contract.Product.{product}
use hanghae_plus_backend.Repository.Contract.Coupon.{coupon}
use hanghae_plus_backend.Repository.Contract.Coupon as CouponRow
use hanghae_plus_backend.Repository.Coupon.{to_coupon, of_coupon}
use hanghae_plus_backend.Repository.Coupon as CouponRows
use hanghae_plus_backend.Service.RedisCall.{redis_write, zscore, zadd}
use hanghae_plus_backend.Service.Coupons
use hanghae_plus_backend.UseCase.CreateOrder.{daily_ranking_key}
use hanghae_plus_backend.Handler.Restore.{
  restore_coupon, restore_coupon_usage, restore_coupon_if, lower_score, restore_rank,
  restore_product_ranking, restore_product_stock, compensate,
}
use hanghae_plus_backend.Reservation.Ordered.{ordered, more}
use hanghae_plus_backend.Compensation.Stock.{IsNamed, restore_product_stock-rows}

-- A coupon's row, not used.
abbrev pub unused : Option CouponEntity → Option CouponEntity
unused none = none
unused (some e) = some (record e { is_used = false })

-- The row of coupon `j` after the usage of the coupon of the event, if there is one, is reverted.
abbrev pub reverted : Option ℕ → ℕ → Option CouponEntity → Option CouponEntity
reverted none j row = row
reverted (some id) j row = if id == j then unused row else row

module _ {env : Env} where
  restore_coupon_usage-rows :
      (id : ℕ) (s : State env) {s' : State env}
      → id ≢ 0
      → restore_coupon_usage id s ≡ (ok tt, s')
      → ((j : ℕ) → coupon s' j ≡ reverted (some id) j (coupon s j))
        × (s' ≡ record s { coupons = s'.coupons })
  unfolding restore_coupon_usage restore_coupon Coupons.find_by_id Coupons.save
      CouponRows.find_by_id revert_usage
  restore_coupon_usage-rows id s {s'} known h = elim (Option-cases (coupon s id)) [
    | inl absent ↦ ground arith
    | inr (e, found) ↦
        let own : e.id ≡ id = env.coupons.find_one_key s.coupons id e found in
        let c : Coupon = revert_usage (to_coupon e) in
        elim (Bool-cases e.is_used) [
          | inr fresh ↦ ((λ j. ground arith), ground arith)
          | inl was_used ↦ elim (run-cases (CouponRows.save c) s) [
            | inr (x, s₁, failed) ↦ ground arith
            | inl (d, s₁, saved) ↦
                let same : s' ≡ s₁ = ground arith in
                let put =
                  CouponRow.save-Saved c s e (λ z. known (sym own ∙ z)) (ground arith) saved in
                ((λ j. ground (arith, put.row j)), ground (arith, put.frame))
          ]
        ]
  ]

  restore_coupon_if-rows :
      (coupon_id : Option ℕ) (s : State env) {s' : State env}
      → restore_coupon_if (Coupons.truthy coupon_id) s ≡ (ok tt, s')
      → ((j : ℕ) → coupon s' j ≡ reverted (Coupons.truthy coupon_id) j (coupon s j))
        × (s' ≡ record s { coupons = s'.coupons })
  unfolding restore_coupon_if
  restore_coupon_if-rows none s h = ((λ j. ground arith), ground arith)
  restore_coupon_if-rows (some id) s {s'} h = elim (Bool-cases (id == 0)) [
    | inl falsy ↦ ((λ j. ground arith), ground arith)
    | inr set ↦
        let usage = restore_coupon_usage-rows id s {s' = s'} (λ z. ground arith) (ground arith) in
        ((λ j. ground (arith, usage.0 j)), ground (arith, usage.1))
  ]

  restore_rank-frame :
      (key : Key) (item : EventItem) (s : State env)
      → ((restore_rank key item s).0 ≡ ok tt)
        × ((restore_rank key item s).1 ≡ record s { redis = (restore_rank key item s).1.redis })
  unfolding restore_rank zscore lower_score zadd redis_write
  restore_rank-frame key item s = (ground arith, ground arith)

  restore_ranks-frame :
      (key : Key) (items : List EventItem) (s : State env)
      → ((for_each items (restore_rank key) s).0 ≡ ok tt)
        × ((for_each items (restore_rank key) s).1
            ≡ record s { redis = (for_each items (restore_rank key) s).1.redis })
  restore_ranks-frame key [] s = (refl, refl)
  restore_ranks-frame key (item ∷ items) s =
      let first = restore_rank-frame key item s in
      let rest = restore_ranks-frame key items (restore_rank key item s).1 in
      (ground (arith, first, rest), ground (arith, first, rest))

  -- The ranking never makes the compensation throw, and touches the Redis store only.
  restore_product_ranking-frame :
      (items : List EventItem) (s : State env)
      → ((restore_product_ranking items s).0 ≡ ok tt)
        × ((restore_product_ranking items s).1
            ≡ record s { redis = (restore_product_ranking items s).1.redis })
  unfolding restore_product_ranking
  restore_product_ranking-frame items s = restore_ranks-frame (daily_ranking_key s.now) items s

  -- A compensation that returns has put the quantities of the event's items back into the stock, made
  -- the event's coupon unused, and touched no user, order or payment.
  pub compensate-rows :
      (items : List EventItem) (coupon_id : Option ℕ) (s : State env) {s' : State env}
      → All IsNamed items
      → compensate items coupon_id s ≡ (ok tt, s')
      → ((i : ℕ) → product s' i ≡ more (ordered i items) (product s i))
        × ((j : ℕ) → coupon s' j ≡ reverted (Coupons.truthy coupon_id) j (coupon s j))
        × (s' ≡ record s { products = s'.products; coupons = s'.coupons; redis = s'.redis })
  unfolding compensate
  compensate-rows items coupon_id s {s'} named h =
      elim (run-cases (restore_product_stock items) s) [
        | inr (x, s₁, failed) ↦ ground arith
        | inl (u, s₁, stock) ↦
            let first = restore_product_stock-rows items s {s' = s₁} named (ground arith) in
            elim (run-cases (restore_coupon_if (Coupons.truthy coupon_id)) s₁) [
              | inr (x, s₂, failed) ↦ ground arith
              | inl (v, s₂, reverts) ↦
                  let second = restore_coupon_if-rows coupon_id s₁ {s' = s₂} (ground arith) in
                  let third = restore_product_ranking-frame items s₂ in
                  (
                    (λ i. ground (arith, first.0 i, second.1, third)),
                    (λ j. ground (arith, first.1, second.0 j, third)),
                    ground (arith, first.1, second.1, third),
                  )
            ]
      ]
