-- ===== src/Repository/User.antt =====
-- src/infrastructure/repositories/user.repository.ts
use mathlib.Core.Option
use mathlib.Core.List
use hanghae_plus_backend.Prelude.{ℕ, String, Option, none, some, ◌==◌, if◌then◌else◌, str_eq}
use hanghae_plus_backend.App.{Action, pure, raise, gets, ◌>>=◌}
use hanghae_plus_backend.Database.Env.{Env}
use hanghae_plus_backend.Failure.{ok, plain, user_missing}
use hanghae_plus_backend.Domain.User.{User}
use hanghae_plus_backend.Database.Entity.{UserEntity}
use hanghae_plus_backend.Repository.Row.{commit}

-- `new User(…)` of a row; the version is not taken over.
abbrev pub to_user : UserEntity → User
to_user e = record {
  id = e.id;
  name = e.name;
  email = e.email;
  points = e.points;
  password = e.password;
  version = 0;
}

-- `create({ … })`
abbrev pub of_user : User → UserEntity
of_user u = record {
  id = 0;
  email = u.email;
  name = u.name;
  points = u.points;
  password = u.password;
}

module _ {env : Env} where
  unfoldable pub find_by_id : ℕ → Action env (Option User)
  find_by_id id s = (ok (Option.map to_user (env.users.find_one s.users id)), s)

  unfoldable pub find_by_email : String → Action env (Option User)
  find_by_email email s =
      (ok (Option.map to_user (List.head? (env.users.find s.users (λ e. str_eq e.email email)))), s)

  save_entity : UserEntity → Action env User
  save_entity e = do
    saved ← (λ s. commit (env.users.save s.users e) (λ rows. record s { users = rows }) s)
    pure (to_user saved)

  -- An existing row takes over the points only.
  update_entity : User → Option UserEntity → Action env User
  unfolding save_entity
  update_entity u none = raise (plain user_missing)
  update_entity u (some entity) = save_entity (record entity { points = u.points })

  unfoldable pub save : User → Action env User
  unfolding update_entity save_entity
  save u =
      if u.id == 0
      then save_entity (of_user u)
      else (gets (λ s. env.users.find_one s.users u.id) >>= update_entity u)
