-- ===== src/Caching/Changed.antt =====
-- The changes of points in src/infrastructure/services/user.service.ts: that they drop the cached points.
use hanghae_plus_backend.Prelude.{
  ℕ, ◌≡◌, ◌≢◌, refl, sym, ap, ◌∙◌, inl, inr, none, some, arith, ◌==◌, Option-cases, Bool-cases,
}
use hanghae_plus_backend.Prelude.Int.{ℤ, ◌+ℤ◌, ◌-ℤ◌}
use hanghae_plus_backend.App.{State, run-cases}
use hanghae_plus_backend.Database.Env.{Env}
use hanghae_plus_backend.Database.Entity.{UserEntity}
use hanghae_plus_backend.Failure.{ok}
use hanghae_plus_backend.Dto.{ChargePointsDto}
use hanghae_plus_backend.Domain.User.{User}
use hanghae_plus_backend.Domain.User
use hanghae_plus_backend.Validation.User.{validate_user_exists}
use hanghae_plus_backend.Repository.User.{to_user}
use hanghae_plus_backend.Repository.User as Rows
use hanghae_plus_backend.Repository.Contract.User.{user, save-Saved}
use hanghae_plus_backend.Service.RedisCall.{redis_write}
use hanghae_plus_backend.Service.Users.{invalidate_points, charge_points, use_points}
use hanghae_plus_backend.Account.Change.{
  invalidate_points-frame, HasNow, charge_points-HasNow, use_points-HasNow,
}
use hanghae_plus_backend.Caching.Points.{IsCoherent, get_user_points-IsCoherent}
use hanghae_plus_backend.UseCase.Queries.{get_user_points}

module _ {env : Env} where
  -- The cached points of a user are dropped, unless Redis refuses that.
  pub data Dropped (id : ℕ) (s s' : State env) : Type 0 where
    dropped :
        (r : env.redis.Store)
        → env.redis.invalidate_user_points_cache id s.redis ≡ some r
        → s'.redis ≡ r
        → Dropped id s s'
    kept :
        env.redis.invalidate_user_points_cache id s.redis ≡ none
        → s'.redis ≡ s.redis
        → Dropped id s s'

  invalidate_points-Dropped :
      (id : ℕ) (s s₁ : State env) → s₁.redis ≡ s.redis → Dropped id s (invalidate_points id s₁).1
  unfolding invalidate_points redis_write
  invalidate_points-Dropped id s s₁ same =
      elim (Option-cases (env.redis.invalidate_user_points_cache id s.redis)) [
        | inl refused ↦ kept refused (ground (arith, same))
        | inr (r, done) ↦ dropped r done (ground (arith, same))
      ]

  -- A save of a row that is there leaves the store.
  save-redis :
      (v : User) (s : State env) (u : UserEntity) (id : ℕ) {w : User} {s₁ : State env}
      → user s id ≡ some u
      → v.id ≡ u.id
      → Rows.save v s ≡ (ok w, s₁)
      → s₁.redis ≡ s.redis
  save-redis v s u id found same saved =
      let own : u.id ≡ id = env.users.find_one_key s.users id u found in
      let known : id ≢ 0 = env.users.find_one_pos s.users id u found in
      let put =
        (save-Saved v s u (λ z. known (sym own ∙ sym same ∙ z))
          (ap (λ i. user s i) (same ∙ own) ∙ found) saved).0 in
      ground (arith, put.frame)

  charge_points-Dropped :
      (id : ℕ) (dto : ChargePointsDto) (s : State env) {w : User} {s' : State env}
      → charge_points id dto s ≡ (ok w, s')
      → Dropped id s s'
  unfolding charge_points Rows.find_by_id validate_user_exists User.charge_points
  charge_points-Dropped id dto s {w} {s'} h = elim (Option-cases (user s id)) [
    | inl absent ↦ ground arith
    | inr (u, found) ↦
        let v : User = record (to_user u) { points = u.points +ℤ dto.amount } in
        elim (run-cases (Rows.save v) s) [
          | inr (x, s₁, failed) ↦ ground arith
          | inl (d, s₁, saved) ↦
              let last : s' ≡ (invalidate_points id s₁).1 =
                ground (arith, (invalidate_points-frame id s₁).0) in
              rw last (invalidate_points-Dropped id s s₁ (save-redis v s u id found refl saved))
        ]
  ]

  use_points-Dropped :
      (id : ℕ) (amount : ℤ) (s : State env) {w : User} {s' : State env}
      → use_points id amount s ≡ (ok w, s')
      → Dropped id s s'
  unfolding use_points Rows.find_by_id validate_user_exists User.use_points
  use_points-Dropped id amount s {w} {s'} h = elim (Option-cases (user s id)) [
    | inl absent ↦ ground arith
    | inr (u, found) ↦
        let v : User = record (to_user u) { points = u.points -ℤ amount } in
        elim (run-cases (Rows.save v) s) [
          | inr (x, s₁, failed) ↦ ground arith
          | inl (d, s₁, saved) ↦
              let last : s' ≡ (invalidate_points id s₁).1 =
                ground (arith, (invalidate_points-frame id s₁).0) in
              rw last (invalidate_points-Dropped id s s₁ (save-redis v s u id found refl saved))
        ]
  ]

  -- A user's points have changed and the cached ones were dropped: the cache is coherent again.
  change-IsCoherent :
      (id : ℕ) (u : UserEntity) (points : ℤ) (s s' : State env)
      → HasNow id u points s s'
      → Dropped id s s'
      → ((r : env.redis.Store) → env.redis.invalidate_user_points_cache id r ≢ none)
      → IsCoherent s
      → IsCoherent s'
  change-IsCoherent id u points s s' now (kept refused same) accepts c =
      absurd (accepts s.redis refused)
  change-IsCoherent id u points s s' now (dropped r done same) accepts c = record {
    same = λ j p held. elim (Bool-cases (id == j)) [
      | inl own ↦
          ground
            (arith, same, env.redis.points_cache-invalidate_user_points_cache id s.redis done j)
      | inr other ↦
          (let (v, found, eq) = c.same j p (
              ground (
                arith,
                same,
                env.redis.points_cache-invalidate_user_points_cache id s.redis done j,
              )) in
            (v, ground (arith, now.row j, found), eq))
    ];
  }

  next-read :
      (id : ℕ) (u : UserEntity) (points balance : ℤ) (s s' : State env)
      → HasNow id u points s s'
      → points ≡ balance
      → IsCoherent s'
      → (get_user_points id s').0 ≡ ok (record { user_id = id; balance = balance })
  next-read id u points balance s s' now same c = elim (get_user_points-IsCoherent id s' c) [
    | inl (v, s₁, found, answer, _, _) ↦ ground (arith, now.row id, found, answer, same)
    | inr (absent, _) ↦ ground (arith, now.row id, absent)
  ]

  -- A charge of points that returns keeps the cache coherent, where Redis does not refuse to drop
  -- the cached points; so what get-user-points.use-case.ts answers next is the new balance.
  pub charge_points-IsCoherent :
      (id : ℕ) (dto : ChargePointsDto) (s : State env) {w : User} {s' : State env}
      → ((r : env.redis.Store) → env.redis.invalidate_user_points_cache id r ≢ none)
      → IsCoherent s
      → charge_points id dto s ≡ (ok w, s')
      → IsCoherent s'
        × ((get_user_points id s').0 ≡ ok (record { user_id = id; balance = w.points }))
  charge_points-IsCoherent id dto s {w} {s'} accepts c h =
      let (u, positive, sum, now) = charge_points-HasNow id dto s h in
      let c' =
        change-IsCoherent id u (u.points +ℤ dto.amount) s s' now (charge_points-Dropped id dto s h)
          accepts c in
      (c', next-read id u (u.points +ℤ dto.amount) w.points s s' now (sym sum) c')

  -- Likewise a use of points, after which the amount is off the balance that is answered.
  pub use_points-IsCoherent :
      (id : ℕ) (amount : ℤ) (s : State env) {w : User} {s' : State env}
      → ((r : env.redis.Store) → env.redis.invalidate_user_points_cache id r ≢ none)
      → IsCoherent s
      → use_points id amount s ≡ (ok w, s')
      → (u : UserEntity) × IsCoherent s'
        × (user s id ≡ some u)
        × ((get_user_points id s').0 ≡ ok (record { user_id = id; balance = u.points -ℤ amount }))
  use_points-IsCoherent id amount s {w} {s'} accepts c h =
      let (u, positive, covered, now) = use_points-HasNow id amount s h in
      let c' =
        change-IsCoherent id u (u.points -ℤ amount) s s' now (use_points-Dropped id amount s h)
          accepts c in
      (u, c', now.found, next-read id u (u.points -ℤ amount) (u.points -ℤ amount) s s' now refl c')
