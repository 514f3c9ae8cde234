-- ===== src/Repository/Contract/User.antt =====
-- src/infrastructure/repositories/user.repository.ts: what a `save` of a known user does.
use hanghae_plus_backend.Prelude.{
  ℕ, ◌≡◌, ◌≢◌, inl, inr, sym, ◌∙◌, Option, some, arith, ◌==◌, if◌then◌else◌, Option-cases,
}
use hanghae_plus_backend.App.{State}
use hanghae_plus_backend.Database.Env.{Env}
use hanghae_plus_backend.Failure.{ok, err, Exception, Result-cases}
use hanghae_plus_backend.Domain.User.{User}
use hanghae_plus_backend.Database.Entity.{UserEntity}
use hanghae_plus_backend.Repository.User.{save, to_user}

module _ {env : Env} where
  -- The row of a user.
  abbrev pub user : State env → ℕ → Option UserEntity
  user s i = env.users.find_one s.users i

  -- A save of a known user sets the points of the row and touches nothing else.
  pub record Saved (u : User) (entity : UserEntity) (s s' : State env) : Type 0 where
    pub row :
        (i : ℕ)
        → user s' i ≡ (if u.id == i then some (record entity { points = u.points }) else user s i)
    pub frame : s' ≡ record s { users = s'.users }

  pub save-Saved :
      (u : User) (s : State env) (entity : UserEntity) {v : User} {s' : State env}
      → u.id ≢ 0
      → user s u.id ≡ some entity
      → save u s ≡ (ok v, s')
      → Saved u entity s s' × (v ≡ to_user (record entity { points = u.points }))
  unfolding save
  save-Saved u s entity {v} {s'} known found h =
      let new : UserEntity = record entity { points = u.points } in
      let own = env.users.find_one_key s.users u.id entity found in
      elim (Result-cases (env.users.save s.users new)) [
        | inl (e, failed) ↦ ground arith
        | inr ((e, rows), saved) ↦
            let same = env.users.save_update s.users new saved (λ z. known (sym own ∙ z)) in
            (
              record {
                row = λ i. ground (arith, same, own, env.users.find_one-save s.users new saved i);
                frame = ground arith;
              },
              ground (arith, same),
            )
      ]

  pub save-err :
      (u : User) (s : State env) {e : Exception} {s' : State env} → save u s ≡ (err e, s') → s' ≡ s
  unfolding save
  save-err u s h = elim (Option-cases (user s u.id)) [
    | inl absent ↦ ground arith
    | inr (entity, found) ↦ ground arith
  ]
