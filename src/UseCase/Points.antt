-- ===== src/UseCase/Points.antt =====
-- src/application/use-cases/users/charge-points.use-case.ts
use hanghae_plus_backend.Prelude.{ℕ}
use hanghae_plus_backend.Prelude.Int.{ℤ}
use hanghae_plus_backend.App.{Action, pure, ◌>>=◌}
use hanghae_plus_backend.Database.Env.{Env}
use hanghae_plus_backend.Dto.{ChargePointsDto}
use hanghae_plus_backend.Service.Users

pub record PointsResponseDto : Type 0 where
  pub user_id : ℕ
  pub balance : ℤ

module _ {env : Env} where
  unfoldable pub execute : ℕ → ChargePointsDto → Action env PointsResponseDto
  execute user_id dto = do
    user ← Users.charge_points user_id dto
    pure (record { user_id = user.id; balance = user.points })
