-- ===== src/Account/Errors.antt =====
-- `chargePoints` and `usePoints` of src/infrastructure/services/user.service.ts, when they throw.
use hanghae_plus_backend.Prelude.{
  ℕ, ◌≡◌, ◌⊎◌, inl, inr, none, some, arith, Option-cases, Bool-cases,
}
use hanghae_plus_backend.Prelude.Int.{ℤ, pos, negsuc, ◌+ℤ◌, ◌-ℤ◌, ◌≤ℤ◌, ltb_ℤ}
use hanghae_plus_backend.App.{State}
use hanghae_plus_backend.Database.Env.{Env}
use hanghae_plus_backend.App.{run-cases}
use hanghae_plus_backend.Failure.{
  err, Exception, missing, bad, internal, user_missing, negative_points, insufficient_points,
  server_error,
}
use hanghae_plus_backend.Dto.{ChargePointsDto}
use hanghae_plus_backend.Domain.User.{User}
use hanghae_plus_backend.Domain.User
use hanghae_plus_backend.Database.Entity.{UserEntity}
use hanghae_plus_backend.Validation.User.{validate_user_exists}
use hanghae_plus_backend.Repository.Contract.User.{user, save-err}
use hanghae_plus_backend.Repository.User.{to_user}
use hanghae_plus_backend.Repository.User as Rows
use hanghae_plus_backend.Service.Users.{charge_points, use_points, charge_error, use_error}
use hanghae_plus_backend.Account.Change.{invalidate_points-frame}

module _ {env : Env} where
  -- A charge that throws has changed nothing, and answers 404 for an unknown user, 400 for a negative
  -- amount, and otherwise what becomes of the refusal of the database to save the user's new points.
  pub charge_points-err :
      (id : ℕ) (dto : ChargePointsDto) (s : State env) {x : Exception} {s' : State env}
      → charge_points id dto s ≡ (err x, s')
      → (s' ≡ s)
        × (((user s id ≡ none) × (x ≡ missing user_missing))
            ⊎ ((u : UserEntity) × (user s id ≡ some u)
                × (((dto.amount ≤ℤ negsuc 0) × (x ≡ bad negative_points))
                    ⊎ ((pos 0 ≤ℤ dto.amount)
                        × (y : Exception) × (x ≡ charge_error y)
                        × (Rows.save (record (to_user u) { points = u.points +ℤ dto.amount }) s
                            ≡ (err y, s))))))
  unfolding charge_points Rows.find_by_id validate_user_exists User.charge_points
  charge_points-err id dto s {x} {s'} h = elim (Option-cases (user s id)) [
    | inl absent ↦ (ground arith, inl (absent, ground arith))
    | inr (u, found) ↦
        let v : User = record (to_user u) { points = u.points +ℤ dto.amount } in
        elim (Bool-cases (ltb_ℤ dto.amount (pos 0))) [
          | inl negative ↦ (ground arith, inr (u, found, inl (ground arith, ground arith)))
          | inr sign ↦ elim (run-cases (Rows.save v) s) [
            | inl (d, s₁, saved) ↦ ground (arith, invalidate_points-frame id s₁)
            | inr (y, s₁, failed) ↦
                let same : s₁ ≡ s = save-err v s failed in
                (
                  ground (arith, same),
                  inr (u, found, inr (ground arith, y, ground arith, ground (arith, same))),
                )
          ]
        ]
  ]

  -- A use of points that throws has changed nothing, and answers 404 for an unknown user, 500 for a
  -- negative amount, 400 where the points do not cover the amount, and otherwise what becomes of the
  -- refusal of the database to save the user's new points.
  pub use_points-err :
      (id : ℕ) (amount : ℤ) (s : State env) {x : Exception} {s' : State env}
      → use_points id amount s ≡ (err x, s')
      → (s' ≡ s)
        × (((user s id ≡ none) × (x ≡ missing user_missing))
            ⊎ ((u : UserEntity) × (user s id ≡ some u)
                × (((amount ≤ℤ negsuc 0) × (x ≡ internal server_error))
                    ⊎ ((pos 0 ≤ℤ amount)
                        × (((¬ (amount ≤ℤ u.points)) × (x ≡ bad insufficient_points))
                            ⊎ ((amount ≤ℤ u.points)
                                × (y : Exception) × (x ≡ use_error y)
                                × (Rows.save (record (to_user u) { points = u.points -ℤ amount }) s
                                    ≡ (err y, s))))))))
  unfolding use_points Rows.find_by_id validate_user_exists User.use_points
  use_points-err id amount s {x} {s'} h = elim (Option-cases (user s id)) [
    | inl absent ↦ (ground arith, inl (absent, ground arith))
    | inr (u, found) ↦
        let v : User = record (to_user u) { points = u.points -ℤ amount } in
        elim (Bool-cases (ltb_ℤ amount (pos 0))) [
          | inl negative ↦ (ground arith, inr (u, found, inl (ground arith, ground arith)))
          | inr sign ↦ elim (Bool-cases (ltb_ℤ u.points amount)) [
            | inl short ↦ (
              ground arith,
              inr (u, found, inr (ground arith, inl ((λ z. ground arith), ground arith))),
            )
            | inr covered ↦ elim (run-cases (Rows.save v) s) [
              | inl (d, s₁, saved) ↦ ground (arith, invalidate_points-frame id s₁)
              | inr (y, s₁, failed) ↦
                  let same : s₁ ≡ s = save-err v s failed in
                  (
                    ground (arith, same),
                    inr (
                      u,
                      found,
                      inr (ground arith, inr (ground arith, y, ground arith, ground (arith, same))),
                    ),
                  )
            ]
          ]
        ]
  ]
