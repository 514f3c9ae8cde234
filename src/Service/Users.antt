-- ===== src/Service/Users.antt =====
-- src/infrastructure/services/user.service.ts
use hanghae_plus_backend.Prelude.{ℕ, none, some, if◌then◌else◌}
use hanghae_plus_backend.Prelude.Int.{ℤ}
use hanghae_plus_backend.App.{Action, pure, raise, lift, catch, ◌>>=◌, ◌>>◌}
use hanghae_plus_backend.Database.Env.{Env}
use hanghae_plus_backend.Failure.{
  plain, missing, bad, internal, user_missing, negative_points, insufficient_points, server_error,
  includes, Exception,
}
use hanghae_plus_backend.Dto.{ChargePointsDto}
use hanghae_plus_backend.Domain.User.{User}
use hanghae_plus_backend.Domain.User
use hanghae_plus_backend.Validation.User.{validate_user_exists}
use hanghae_plus_backend.Repository.User as Rows
use hanghae_plus_backend.Service.RedisCall.{redis_write}

-- The three catch blocks.
abbrev pub charge_error : Exception → Exception
charge_error e =
    if includes e.message user_missing
    then missing e.message
    else if includes e.message negative_points
    then bad e.message
    else internal server_error

abbrev pub get_error : Exception → Exception
get_error e = if includes e.message user_missing then missing e.message else internal server_error

abbrev pub use_error : Exception → Exception
use_error e =
    if includes e.message user_missing
    then missing e.message
    else if includes e.message insufficient_points
    then bad e.message
    else internal server_error

module _ {env : Env} where
  -- A failure to drop the cached points is logged only.
  unfoldable pub invalidate_points : ℕ → Action env (Unit {0})
  invalidate_points user_id =
      catch (redis_write (env.redis.invalidate_user_points_cache user_id)) (λ _. pure tt)

  unfoldable pub charge_points : ℕ → ChargePointsDto → Action env User
  charge_points user_id dto =
      catch
        (do
          found ← Rows.find_by_id user_id
          user ← lift (validate_user_exists found)
          charged ← lift (User.charge_points user dto.amount)
          saved ← Rows.save charged
          invalidate_points user_id
          pure saved)
        (λ e. raise (charge_error e))

  unfoldable pub get_user_points : ℕ → Action env User
  get_user_points user_id =
      catch (do found ← Rows.find_by_id user_id; lift (validate_user_exists found))
        (λ e. raise (get_error e))

  unfoldable pub validate_user : ℕ → Action env User
  validate_user user_id = do
    found ← Rows.find_by_id user_id
    elim found [ none ↦ raise (plain user_missing) | some user ↦ pure user ]

  unfoldable pub use_points : ℕ → ℤ → Action env User
  use_points user_id amount =
      catch
        (do
          found ← Rows.find_by_id user_id
          user ← lift (validate_user_exists found)
          used ← lift (User.use_points user amount)
          saved ← Rows.save used
          invalidate_points user_id
          pure saved)
        (λ e. raise (use_error e))
