-- ===== src/Caching/Points.antt =====
-- The cache of points: src/application/use-cases/users/get-user-points.use-case.ts with the operations of
-- src/infrastructure/services/user.service.ts that change points.
use hanghae_plus_backend.Prelude.{
  ℕ, ◌≡◌, ◌⊎◌, refl, sym, inl, inr, none, some, arith, ◌==◌, ==_iff, Option-cases, Bool-cases,
}
use hanghae_plus_backend.Prelude.Int.{ℤ}
use hanghae_plus_backend.App.{State}
use hanghae_plus_backend.Database.Env.{Env}
use hanghae_plus_backend.Database.Entity.{UserEntity}
use hanghae_plus_backend.Failure.{ok, err, missing, user_missing}
use hanghae_plus_backend.Validation.User.{validate_user_exists}
use hanghae_plus_backend.Repository.User.{to_user}
use hanghae_plus_backend.Repository.User as Rows
use hanghae_plus_backend.Repository.Contract.User.{user}
use hanghae_plus_backend.Service.RedisCall.{redis_read, redis_write}
use hanghae_plus_backend.Service.Users as Users
use hanghae_plus_backend.Service.Users.{invalidate_points, charge_points, use_points}
use hanghae_plus_backend.UseCase.Queries.{cached, put_in_cache, read_user_points, get_user_points}

module _ {env : Env} where
  -- Cached points are the points of the user's row.
  pub record IsCoherent (s : State env) : Type 0 where
    pub same :
        (i : ℕ) (points : ℤ)
        → env.redis.points_cache i s.redis ≡ some points
        → (u : UserEntity) × (user s i ≡ some u) × (u.points ≡ points)

  cached-points :
      (i : ℕ) (s : State env)
      → (cached (env.redis.get_user_points_cache i) s ≡ (ok none, s))
        ⊎ ((points : ℤ) × (env.redis.points_cache i s.redis ≡ some points)
            × (cached (env.redis.get_user_points_cache i) s ≡ (ok (some points), s)))
  unfolding cached redis_read
  cached-points i s = elim (Option-cases (env.redis.get_user_points_cache i s.redis)) [
    | inl failed ↦ inl (ground arith)
    | inr (none, read) ↦ inl (ground arith)
    | inr (some points, read) ↦ elim (env.redis.get_user_points_cache_lem i s.redis read) [
      | inl nothing ↦ ground arith
      | inr held ↦ inr (points, sym held, ground arith)
    ]
  ]

  -- The points of a row, written into the cache.
  write-IsCoherent :
      (i : ℕ) (u : UserEntity) (s : State env) {r : env.redis.Store}
      → user s i ≡ some u
      → env.redis.set_user_points_cache i u.points 300 s.redis ≡ some r
      → IsCoherent s
      → IsCoherent (record s { redis = r })
  write-IsCoherent i u s found written c = record {
    same = λ j p held. elim (Bool-cases (i == j)) [
      | inr other ↦ c.same j p (
          ground
            (arith, env.redis.points_cache-set_user_points_cache i u.points 300 s.redis written j))
      | inl own ↦
          (let at : i ≡ j = (==_iff i j).0 own in
            (
              u,
              rw (sym at) found,
              ground (
                arith,
                env.redis.points_cache-set_user_points_cache i u.points 300 s.redis written j,
              ),
            ))
    ];
  }

  -- A write into the cache of points never throws, and keeps the cache coherent.
  put-points :
      (i : ℕ) (u : UserEntity) (s : State env)
      → user s i ≡ some u
      → IsCoherent s
      → (s₁ : State env) × (put_in_cache (env.redis.set_user_points_cache i u.points 300) s
          ≡ (ok tt, s₁))
        × (s₁ ≡ record s { redis = s₁.redis })
        × IsCoherent s₁
  unfolding put_in_cache redis_write
  put-points i u s found c =
      elim (Option-cases (env.redis.set_user_points_cache i u.points 300 s.redis)) [
        | inl failed ↦ (s, ground arith, refl, c)
        | inr (r, written) ↦
            (record s { redis = r }, ground arith, refl, write-IsCoherent i u s found written c)
      ]

  read-found :
      (i : ℕ) (s : State env) (u : UserEntity)
      → user s i ≡ some u
      → IsCoherent s
      → (s₁ : State env) × (read_user_points i s
          ≡ (ok (record { user_id = i; balance = u.points }), s₁))
        × (s₁ ≡ record s { redis = s₁.redis })
        × IsCoherent s₁
  unfolding read_user_points Users.get_user_points Rows.find_by_id validate_user_exists
  read-found i s u found c =
      let (s₁, put, frame, c₁) = put-points i u s found c in
      let own : u.id ≡ i = env.users.find_one_key s.users i u found in
      (s₁, ground (arith, put, own), frame, c₁)

  read-absent :
      (i : ℕ) (s : State env)
      → user s i ≡ none
      → read_user_points i s ≡ (err (missing user_missing), s)
  unfolding read_user_points Users.get_user_points Rows.find_by_id validate_user_exists
  read-absent i s absent = ground arith

  -- With a coherent cache, the points that get-user-points.use-case.ts answers are those of the
  -- user's row, whether they come from the cache or not and whatever calls of Redis fail; without a
  -- row the user is not found. Nothing but the Redis store changes, and the cache stays coherent.
  pub get_user_points-IsCoherent :
      (i : ℕ) (s : State env)
      → IsCoherent s
      → ((u : UserEntity) × (s₁ : State env) × (user s i ≡ some u)
          × (get_user_points i s ≡ (ok (record { user_id = i; balance = u.points }), s₁))
          × (s₁ ≡ record s { redis = s₁.redis })
          × IsCoherent s₁)
        ⊎ ((user s i ≡ none) × (get_user_points i s ≡ (err (missing user_missing), s)))
  unfolding get_user_points
  get_user_points-IsCoherent i s c = elim (cached-points i s) [
    | inr (points, held, hit) ↦
        (let (u, found, same) = c.same i points held in
          inl (u, s, found, ground (arith, hit, same), refl, c))
    | inl miss ↦ elim (Option-cases (user s i)) [
      | inr (u, found) ↦
          (let (s₁, answer, frame, c₁) = read-found i s u found c in
            inl (u, s₁, found, ground (arith, miss, answer), frame, c₁))
      | inl absent ↦ inr (absent, ground (arith, miss, read-absent i s absent))
    ]
  ]
