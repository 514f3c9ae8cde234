-- ===== src/Account/Change.antt =====
-- `chargePoints` and `usePoints` of src/infrastructure/services/user.service.ts, when they return.
use hanghae_plus_backend.Prelude.{
  ℕ, ◌≡◌, ◌≢◌, inl, inr, refl, sym, ap, ◌∙◌, some, arith, ◌==◌, if◌then◌else◌, Option-cases,
}
use hanghae_plus_backend.Prelude.Int.{ℤ, pos, ◌+ℤ◌, ◌-ℤ◌, ◌≤ℤ◌}
use hanghae_plus_backend.App.{State}
use hanghae_plus_backend.Database.Env.{Env}
use hanghae_plus_backend.App.{run-cases}
use hanghae_plus_backend.Failure.{ok}
use hanghae_plus_backend.Dto.{ChargePointsDto}
use hanghae_plus_backend.Domain.User.{User}
use hanghae_plus_backend.Domain.User
use hanghae_plus_backend.Database.Entity.{UserEntity}
use hanghae_plus_backend.Validation.User.{validate_user_exists}
use hanghae_plus_backend.Repository.Contract.User.{user, save-Saved}
use hanghae_plus_backend.Repository.User.{to_user}
use hanghae_plus_backend.Repository.User as Rows
use hanghae_plus_backend.Service.RedisCall.{redis_write}
use hanghae_plus_backend.Service.Users.{invalidate_points, charge_points, use_points}

module _ {env : Env} where
  -- Dropping the cached points never throws, and touches the Redis store only.
  pub invalidate_points-frame :
      (i : ℕ) (s : State env)
      → ((invalidate_points i s).0 ≡ ok tt)
        × ((invalidate_points i s).1 ≡ record s { redis = (invalidate_points i s).1.redis })
  unfolding invalidate_points redis_write
  invalidate_points-frame i s = (ground arith, ground arith)

  -- The user `id` had row `u` and has `points` now; no other user and no other table has changed.
  pub record HasNow (id : ℕ) (u : UserEntity) (points : ℤ) (s s' : State env) : Type 0 where
    pub found : user s id ≡ some u
    pub row :
        (j : ℕ) → user s' j ≡ (if id == j then some (record u { points = points }) else user s j)
    pub frame : s' ≡ record s { users = s'.users; redis = s'.redis }

  save-HasNow :
      (id : ℕ) (u : UserEntity) (v : User) (s s₁ s' : State env) {w : User}
      → user s id ≡ some u
      → v.id ≡ u.id
      → Rows.save v s ≡ (ok w, s₁)
      → s' ≡ record s₁ { redis = s'.redis }
      → HasNow id u v.points s s'
  save-HasNow id u v s s₁ s' {w} found same saved after =
      let own : u.id ≡ id = env.users.find_one_key s.users id u found in
      let known : id ≢ 0 = env.users.find_one_pos s.users id u found in
      let put =
        (save-Saved v s u (λ z. known (sym own ∙ sym same ∙ z))
          (ap (λ i. user s i) (same ∙ own) ∙ found) saved).0 in
      record {
        found = found;
        row = λ j. ground (arith, put.row j, own, same);
        frame = ground (arith, put.frame, after);
      }

  -- A use of points that returns had a known user whose points cover an amount that is not negative,
  -- takes the amount off the points of that user, and changes no other row of any table.
  pub use_points-HasNow :
      (id : ℕ) (amount : ℤ) (s : State env) {w : User} {s' : State env}
      → use_points id amount s ≡ (ok w, s')
      → (u : UserEntity) × (pos 0 ≤ℤ amount)
        × (amount ≤ℤ u.points)
        × HasNow id u (u.points -ℤ amount) s s'
  unfolding use_points Rows.find_by_id validate_user_exists User.use_points
  use_points-HasNow id amount s {w} {s'} h = elim (Option-cases (user s id)) [
    | inl absent ↦ ground arith
    | inr (u, found) ↦
        let v : User = record (to_user u) { points = u.points -ℤ amount } in
        elim (run-cases (Rows.save v) s) [
          | inr (x, s₁, failed) ↦ ground arith
          | inl (d, s₁, saved) ↦
              let drop = invalidate_points-frame id s₁ in
              (
                u,
                ground arith,
                ground arith,
                save-HasNow id u v s s₁ s' found refl saved (ground (arith, drop)),
              )
        ]
  ]

  -- A charge that returns had a known user and an amount that is not negative, adds the amount to the
  -- points of that user, and changes no other row of any table.
  pub charge_points-HasNow :
      (id : ℕ) (dto : ChargePointsDto) (s : State env) {w : User} {s' : State env}
      → charge_points id dto s ≡ (ok w, s')
      → (u : UserEntity) × (pos 0 ≤ℤ dto.amount)
        × (w.points ≡ u.points +ℤ dto.amount)
        × HasNow id u (u.points +ℤ dto.amount) s s'
  unfolding charge_points Rows.find_by_id validate_user_exists User.charge_points
  charge_points-HasNow id dto s {w} {s'} h = elim (Option-cases (user s id)) [
    | inl absent ↦ ground arith
    | inr (u, found) ↦
        let v : User = record (to_user u) { points = u.points +ℤ dto.amount } in
        elim (run-cases (Rows.save v) s) [
          | inr (x, s₁, failed) ↦ ground arith
          | inl (d, s₁, saved) ↦
              let drop = invalidate_points-frame id s₁ in
              let own : u.id ≡ id = env.users.find_one_key s.users id u found in
              let known : id ≢ 0 = env.users.find_one_pos s.users id u found in
              let back =
                (save-Saved v s u (λ z. known (sym own ∙ z)) (ap (λ i. user s i) own ∙ found)
                  saved).1 in
              (
                u,
                ground arith,
                ground (arith, drop, back),
                save-HasNow id u v s s₁ s' found refl saved (ground (arith, drop)),
              )
        ]
  ]
