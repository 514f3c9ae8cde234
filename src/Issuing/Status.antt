-- ===== src/Issuing/Status.antt =====
-- What src/infrastructure/services/coupon.service.ts says of a queue and of its ranking, against what it then
-- does.
use hanghae_plus_backend.Prelude.{
  ℕ, zero, suc, ◌+◌, ◌≡◌, refl, sym, ap, ◌∙◌, inl, inr, String, true, false, Option, none, some,
  List, [], ◌∷◌, arith, Option-cases, Bool-cases, length, get_elem?,
}
use hanghae_plus_backend.Prelude.Int.{ℤ, pos, ◌-ℤ◌}
use hanghae_plus_backend.App.{State, run-cases}
use hanghae_plus_backend.Database.Env.{Env}
use hanghae_plus_backend.Database.Redis.{
  coupon_issued, coupon_rank, coupon_queue, coupon_stock, coupon_endtime,
}
use hanghae_plus_backend.Failure.{ok, err, Exception}
use hanghae_plus_backend.Service.RedisCall.{zscore, redis_read}
use hanghae_plus_backend.Service.Issuing.{
  is_ended, is_issued, is_queued, is_open, check_coupon_availability, issue_coupon,
}
use hanghae_plus_backend.Service.CouponQueries.{
  RankingEntry, QueueStatus, or_zero, rank_each, get_coupon_ranking, get_coupon_queue_status,
}
use hanghae_plus_backend.Issuing.Calls.{score}
use hanghae_plus_backend.Issuing.Stock.{issue_coupon-ok}

module _ {env : Env} where
  -- A user is let in only before the end.
  check-open :
      (i : ℕ) (t : String) (s : State env) (end : Option ℤ)
      → env.redis.get (coupon_endtime t) s.redis ≡ some end
      → check_coupon_availability i t s ≡ (ok true, s)
      → is_ended s.now end ≡ false
  unfolding check_coupon_availability is_issued is_queued is_open zscore redis_read
  check-open i t s end found h = elim (Bool-cases (is_ended s.now end)) [
    | inr before ↦ before
    | inl over ↦ elim (Option-cases (env.redis.zscore (coupon_issued t) i s.redis)) [
      | inl failed ↦ ground arith
      | inr (some x, issued) ↦ ground arith
      | inr (none, unissued) ↦ elim (Option-cases (env.redis.zscore (coupon_queue t) i s.redis)) [
        | inl failed ↦ ground arith
        | inr (some x, queued) ↦ ground arith
        | inr (none, unqueued) ↦ ground arith
      ]
    ]
  ]

  -- getCouponQueueStatus changes nothing, and when it says that the time of a type is over, no
  -- request for a coupon of that type is answered at that time.
  pub get_coupon_queue_status-ended :
      (t : String) (s : State env) {q : QueueStatus} {s' : State env}
      → get_coupon_queue_status t s ≡ (ok q, s')
      → (s' ≡ s)
        × (q.is_ended ≡ true
            → (i : ℕ)
            → (e : Exception) × (s₁ : State env) × (issue_coupon
                  (record { user_id = i; coupon_type = t })
                  s
                ≡ (err e, s₁)))
  unfolding get_coupon_queue_status redis_read
  get_coupon_queue_status-ended t s {q} {s'} h =
      elim (Option-cases (env.redis.zcard (coupon_issued t) s.redis)) [
        | inl failed ↦ ground arith
        | inr (n, counted) ↦ elim (Option-cases (env.redis.zcard (coupon_queue t) s.redis)) [
          | inl failed ↦ ground arith
          | inr (m, waiting) ↦ elim (Option-cases (env.redis.get (coupon_stock t) s.redis)) [
            | inl failed ↦ ground arith
            | inr (stock, left) ↦ elim (Option-cases (env.redis.get (coupon_endtime t) s.redis)) [
              | inl failed ↦ ground arith
              | inr (end, found) ↦ (
                ground arith,
                λ over i.
                    elim (run-cases (issue_coupon (record { user_id = i; coupon_type = t })) s) [
                      | inr (e, s₁, refused) ↦ (e, s₁, refused)
                      | inl (c, s₁, issued) ↦
                          (let early =
                              check-open i t s end found
                                (issue_coupon-ok (record { user_id = i; coupon_type = t }) s
                                  issued).0 in
                            ground arith)
                    ],
              )
            ]
          ]
        ]
      ]

  -- The entries of a ranking: ranks that count up, and the time at which the coupon was issued.
  abbrev pub entries : String → State env → ℕ → List (ℕ × ℤ) → List RankingEntry
  entries t s index [] = []
  entries t s index ((i, x) ∷ rs) =
      record { user_id = i; rank = index + 1; issued_at = or_zero (score (coupon_issued t) i s) }
      ∷ entries t s (suc index) rs

  rank_each-entries :
      (t : String) (index : ℕ) (rs : List (ℕ × ℤ)) (s : State env) {es : List RankingEntry}
      {s' : State env}
      → rank_each t index rs s ≡ (ok es, s')
      → (es ≡ entries t s index rs) × (s' ≡ s)
  unfolding rank_each zscore
  rank_each-entries t index [] s h = (ground arith, ground arith)
  rank_each-entries t index ((i, x) ∷ rs) s {es} {s'} h =
      elim (Option-cases (env.redis.zscore (coupon_issued t) i s.redis)) [
        | inl failed ↦ ground arith
        | inr (at, found) ↦ elim (run-cases (rank_each t (suc index) rs) s) [
          | inr (e, s₁, failed) ↦ ground arith
          | inl (rest, s₁, ranked) ↦
              (let (same, kept) = rank_each-entries t (suc index) rs s ranked in
                let held : at ≡ score (coupon_issued t) i s =
                  env.redis.zscore_score (coupon_issued t) i s.redis found in
                (ground (arith, same, held), ground (arith, kept)))
        ]
      ]

  -- The entry at a place of the ranking.
  entries-rank :
      (t : String) (s : State env) (index place : ℕ) (rs : List (ℕ × ℤ)) {e : RankingEntry}
      → get_elem? (entries t s index rs) place ≡ some e
      → (e.rank ≡ index + place + 1) × (e.issued_at ≡ or_zero (score (coupon_issued t) e.user_id s))
  entries-rank t s index place [] h = ground arith
  entries-rank t s index zero (r ∷ rs) h = (ground arith, ground arith)
  entries-rank t s index (suc place) (r ∷ rs) h =
      let (rank, time) = entries-rank t s (suc index) place rs h in (omega arith, time)

  length-entries :
      (t : String) (s : State env) (index : ℕ) (rs : List (ℕ × ℤ))
      → length (entries t s index rs) ≡ length rs
  length-entries t s index [] = refl
  length-entries t s index (r ∷ rs) = ground (arith, length-entries t s (suc index) rs)

  -- getCouponRanking changes nothing and lists the users that ZRANGE gives it, in that order: the one at the
  -- place p has rank p + 1 and the time at which its coupon was issued, or 0 where none is on record.
  pub get_coupon_ranking-entries :
      (t : String) (limit : ℕ) (s : State env) {es : List RankingEntry} {s' : State env}
      → get_coupon_ranking t limit s ≡ (ok es, s')
      → (rs : List (ℕ × ℤ)) × (env.redis.zrange (coupon_rank t) (pos 0) (pos limit -ℤ pos 1) s.redis
          ≡ some rs)
        × (s' ≡ s)
        × (length es ≡ length rs)
        × ((place : ℕ) (e : RankingEntry)
            → get_elem? es place ≡ some e
            → (e.rank ≡ place + 1) × (e.issued_at ≡ or_zero (score (coupon_issued t) e.user_id s)))
  unfolding get_coupon_ranking redis_read
  get_coupon_ranking-entries t limit s {es} {s'} h =
      elim (Option-cases (env.redis.zrange (coupon_rank t) (pos 0) (pos limit -ℤ pos 1) s.redis)) [
        | inl failed ↦ ground arith
        | inr (rs, found) ↦
            (let (same, kept) =
                rank_each-entries t 0 rs s {es = es} {s' = s'} (ground (arith, found)) in
              (
                rs,
                found,
                kept,
                ap (λ l. length l) same ∙ length-entries t s 0 rs,
                λ place e at.
                    (let (rank, time) =
                        entries-rank t s 0 place rs (ap (λ l. get_elem? l place) (sym same) ∙ at) in
                      (omega arith, time)),
              ))
      ]
