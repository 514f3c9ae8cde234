-- ===== src/Ranking/Days.antt =====
-- The ranking of three days that recalculateOverallRanking of
-- src/application/use-cases/products/get-top-sellers.use-case.ts makes of the daily ones.
use hanghae_plus_backend.Prelude.{
  ℕ, ◌-◌, ◌≡◌, refl, sym, ap, ◌∙◌, inl, inr, some, List, [], ◌∷◌, arith, if◌then◌else◌, ◌==◌,
  ==_iff, Bool-cases, Option-cases,
}
use hanghae_plus_backend.Prelude.Int.{ℤ, pos, negsuc, ◌+ℤ◌, int_laws}
use hanghae_plus_backend.App.{State, run-cases}
use hanghae_plus_backend.Database.Env.{Env}
use hanghae_plus_backend.Database.Redis.{ranking_3d, ranking_day}
use hanghae_plus_backend.Failure.{ok}
use hanghae_plus_backend.Service.RedisCall.{zscore, zadd, expire, redis_read, redis_write}
use hanghae_plus_backend.UseCase.TopSellers.{or_zero, add_to_ranking, add_each, add_day, add_days}
use hanghae_plus_backend.Issuing.Calls.{score}

-- What a list of entries sells of a product.
abbrev pub sales : ℕ → List (ℕ × ℤ) → ℤ
sales m [] = pos 0
sales m ((n, x) ∷ es) = if n == m then x +ℤ sales m es else sales m es

plus_zero : (a : ℤ) → a +ℤ pos 0 ≡ a
unfolding ◌+ℤ◌
plus_zero (pos n) = ground arith
plus_zero (negsuc n) = ground arith

plus_assoc : (a b c : ℤ) → (a +ℤ b) +ℤ c ≡ a +ℤ (b +ℤ c)
plus_assoc a b c = omega int_laws

sums : (a b c d x y z : ℤ) → b ≡ a +ℤ x → c ≡ b +ℤ y → d ≡ c +ℤ z → d ≡ a +ℤ (x +ℤ (y +ℤ z))
sums a b c d x y z p q r =
    r
    ∙ ap (λ i. i +ℤ z) (q ∙ ap (λ i. i +ℤ y) p)
    ∙ plus_assoc (a +ℤ x) y z
    ∙ plus_assoc a x (y +ℤ z)

module _ {env : Env} where
  -- The score of a product in the ranking of three days, 0 if it has none.
  abbrev pub total : ℕ → State env → ℤ
  total m s = or_zero (score ranking_3d m s)

  -- The daily rankings are as before.
  abbrev DaysKept : State env → State env → Type 0
  DaysKept s s' =
      (d : ℕ)
      → env.redis.zrange (ranking_day d) (pos 0) (negsuc 0) s'.redis
        ≡ env.redis.zrange (ranking_day d) (pos 0) (negsuc 0) s.redis

  add_to_ranking-total :
      (n : ℕ) (x : ℤ) (s : State env) {s' : State env}
      → add_to_ranking (n, x) s ≡ (ok tt, s')
      → ((m : ℕ) → total m s' ≡ (if n == m then total m s +ℤ x else total m s)) × DaysKept s s'
  unfolding add_to_ranking zscore zadd redis_write
  add_to_ranking-total n x s {s'} h = elim (Option-cases (env.redis.zscore ranking_3d n s.redis)) [
    | inl failed ↦ ground arith
    | inr (current, found) ↦
        elim (Option-cases (env.redis.zadd ranking_3d (or_zero current +ℤ x) n s.redis)) [
          | inl refused ↦ ground arith
          | inr (r, added) ↦
              (let now : s' ≡ record s { redis = r } = ground (arith, found, added) in
                let old = env.redis.zscore_score ranking_3d n s.redis found in
                (
                  (λ m. elim (Bool-cases (n == m)) [
                    | inl own ↦
                        (let at : n ≡ m = (==_iff n m).0 own in
                          let held : current ≡ score ranking_3d m s =
                            old ∙ ap (λ i. score ranking_3d i s) at in
                          ground (
                            arith,
                            now,
                            env.redis.score-zadd ranking_3d (or_zero current +ℤ x) n s.redis added
                                ranking_3d m,
                            held,
                          ))
                    | inr other ↦ ground (
                      arith,
                      now,
                      env.redis.score-zadd ranking_3d (or_zero current +ℤ x) n s.redis added
                          ranking_3d m,
                    )
                  ]),
                  λ d. ground (
                    arith,
                    now,
                    env.redis.zrange-zadd ranking_3d (or_zero current +ℤ x) n s.redis added
                        (ranking_day d) refl (pos 0) (negsuc 0),
                  ),
                ))
        ]
  ]

  add_each-total :
      (es : List (ℕ × ℤ)) (s : State env) {s' : State env}
      → add_each es s ≡ (ok tt, s')
      → ((m : ℕ) → total m s' ≡ total m s +ℤ sales m es) × DaysKept s s'
  unfolding add_each
  add_each-total [] s {s'} h =
      let same : s' ≡ s = ground arith in
      ((λ m. rw same (sym (plus_zero (total m s)))), λ d. rw same refl)
  add_each-total ((n, x) ∷ es) s {s'} h = elim (run-cases (add_to_ranking (n, x)) s) [
    | inr (e, s₁, failed) ↦ ground arith
    | inl (_, s₁, added) ↦
        (let (one, kept) = add_to_ranking-total n x s added in
          let (more, kept_too) = add_each-total es s₁ {s' = s'} (ground (arith, added)) in
          (
            (λ m. ground (arith, one m, more m, plus_assoc (total m s) x (sales m es))),
            λ d. kept_too d ∙ kept d,
          ))
  ]

  add_day-total :
      (day : ℕ) (es : List (ℕ × ℤ)) (s : State env) {s' : State env}
      → env.redis.zrange (ranking_day day) (pos 0) (negsuc 0) s.redis ≡ some es
      → add_day day s ≡ (ok tt, s')
      → ((m : ℕ) → total m s' ≡ total m s +ℤ sales m es) × DaysKept s s'
  unfolding add_day redis_read
  add_day-total day es s {s'} read h = add_each-total es s {s' = s'} (ground (arith, read))

  expire-total :
      (s : State env) {s' : State env}
      → expire ranking_3d 259200 s ≡ (ok tt, s')
      → (m : ℕ) → total m s' ≡ total m s
  unfolding expire redis_write
  expire-total s {s'} h m = elim (Option-cases (env.redis.expire ranking_3d 259200 s.redis)) [
    | inl refused ↦ ground arith
    | inr (r, done) ↦ ground (
      arith,
      env.redis.score-expire ranking_3d 259200 s.redis done (λ z. omega arith) ranking_3d m,
    )
  ]

  -- When recalculateOverallRanking has gone through the three days and returned, the score of each
  -- product is the one that it had before with its sales of the three days added. So what had been
  -- added at an earlier run counts again.
  pub add_days-total :
      (today : ℕ) (es₀ es₁ es₂ : List (ℕ × ℤ)) (s : State env) {s' : State env}
      → env.redis.zrange (ranking_day today) (pos 0) (negsuc 0) s.redis ≡ some es₀
      → env.redis.zrange (ranking_day (today - 1)) (pos 0) (negsuc 0) s.redis ≡ some es₁
      → env.redis.zrange (ranking_day (today - 2)) (pos 0) (negsuc 0) s.redis ≡ some es₂
      → add_days today s ≡ (ok tt, s')
      → (m : ℕ) → total m s' ≡ total m s +ℤ (sales m es₀ +ℤ (sales m es₁ +ℤ sales m es₂))
  unfolding add_days
  add_days-total today es₀ es₁ es₂ s {s'} r₀ r₁ r₂ h m = elim (run-cases (add_day today) s) [
    | inr (e, t, failed) ↦ ground arith
    | inl (_, t₁, first) ↦
        (let (sum₀, kept₀) = add_day-total today es₀ s r₀ first in
          elim (run-cases (add_day (today - 1)) t₁) [
            | inr (e, t, failed) ↦ ground arith
            | inl (_, t₂, second) ↦
                (let (sum₁, kept₁) =
                    add_day-total (today - 1) es₁ t₁ (kept₀ (today - 1) ∙ r₁) second in
                  elim (run-cases (add_day (today - 2)) t₂) [
                    | inr (e, t, failed) ↦ ground arith
                    | inl (_, t₃, third) ↦
                        (let (sum₂, kept₂) =
                            add_day-total (today - 2) es₂ t₂
                              (kept₁ (today - 2) ∙ kept₀ (today - 2) ∙ r₂) third in
                          sums (total m s) (total m t₁) (total m t₂) (total m s') (sales m es₀)
                            (sales m es₁) (sales m es₂) (sum₀ m) (sum₁ m)
                            (expire-total t₃ {s' = s'} (ground arith) m ∙ sum₂ m))
                  ])
          ])
  ]
