-- ===== src/Domain/User.antt =====
-- src/domain/entities/user.entity.ts
use hanghae_plus_backend.Prelude.{ℕ, ◌+◌, String, Bool, if◌then◌else◌}
use hanghae_plus_backend.Prelude.Int.{ℤ, pos, ◌+ℤ◌, ◌-ℤ◌, ltb_ℤ, leb_ℤ}
use hanghae_plus_backend.Failure.{Result, ok, err, plain, negative_points, insufficient_points}

pub record User : Type 0 where
  pub id : ℕ
  pub name : String
  pub email : String
  pub points : ℤ
  pub password : String
  pub version : ℕ

unfoldable pub set_password : User → String → User
set_password u password = record u { password = password }

unfoldable pub charge_points : User → ℤ → Result User
charge_points u amount =
    if ltb_ℤ amount (pos 0)
    then err (plain negative_points)
    else ok (record u { points = u.points +ℤ amount })

unfoldable pub use_points : User → ℤ → Result User
use_points u amount =
    if ltb_ℤ amount (pos 0)
    then err (plain negative_points)
    else if ltb_ℤ u.points amount
    then err (plain insufficient_points)
    else ok (record u { points = u.points -ℤ amount })

unfoldable pub has_enough_points : User → ℤ → Bool
has_enough_points u amount = leb_ℤ amount u.points

unfoldable pub increment_version : User → User
increment_version u = record u { version = u.version + 1 }
