-- ===== src/Issuing/Stock.antt =====
-- What `issueCoupon` of src/infrastructure/services/coupon.service.ts does to the stock counters.
use hanghae_plus_backend.Prelude.{
  ◌≡◌, ◌⊎◌, inl, inr, String, true, arith, if◌then◌else◌, Option-cases, Bool-cases, str_eq, eq_iff,
}
use hanghae_plus_backend.Prelude.Int.{ℤ, pos, ◌+ℤ◌, ◌-ℤ◌, ◌≤ℤ◌, ltb_ℤ, int_laws}
use hanghae_plus_backend.App.{State, run-cases}
use hanghae_plus_backend.Database.Env.{Env}
use hanghae_plus_backend.Database.Redis.{Key, same_key, coupon_stock}
use hanghae_plus_backend.Dto.{IssueCouponDto}
use hanghae_plus_backend.Failure.{ok}
use hanghae_plus_backend.Domain.Coupon.{Coupon}
use hanghae_plus_backend.Repository.Coupon as Rows
use hanghae_plus_backend.Service.RedisCall.{redis_count}
use hanghae_plus_backend.Service.Issuing.{
  coupon_type_of, create_and_save_coupon, save_ranking_log_async, record_user_rank,
  remove_user_rank, check_coupon_availability, refuse_sold_out, issue_taken, issue_available,
  try_issue, issue_coupon,
}
use hanghae_plus_backend.Issuing.Calls.{
  value, check-unchanged, record_user_rank-Quiet, remove_user_rank-Quiet, finalize_user_rank-Quiet,
}

minus_one : (v n : ℤ) → n ≡ v -ℤ pos 1 → n ≤ℤ v
minus_one v n h = rw h (omega int_laws)

back : (v n m : ℤ) → n ≡ v -ℤ pos 1 → m ≡ n +ℤ pos 1 → m ≡ v
back v n m h k = rw (k, h) (omega int_laws)

same_le : (a b : ℤ) → a ≡ b → a ≤ℤ b
same_le a b h = rw h (omega arith)

one_left : (v n : ℤ) → n ≡ v -ℤ pos 1 → pos 0 ≤ℤ n → pos 1 ≤ℤ v
one_left v n h k = let bound : pos 0 ≤ℤ v -ℤ pos 1 = rw h at k in omega int_laws

module _ {env : Env} where
  pub create_and_save_coupon-redis :
      (dto : IssueCouponDto) (s : State env) → (create_and_save_coupon dto s).1.redis ≡ s.redis
  unfolding create_and_save_coupon Rows.save
  create_and_save_coupon-redis dto s = elim (Option-cases (coupon_type_of dto.coupon_type)) [
    | inl unknown ↦ ground arith
    | inr (t, known) ↦ ground arith
  ]

  issue_taken-value :
      (dto : IssueCouponDto) (rank : ℤ) (s : State env) (k : Key)
      → value k (issue_taken dto rank s).1 ≡ value k s
  unfolding issue_taken save_ranking_log_async
  issue_taken-value dto rank s k = elim (run-cases (create_and_save_coupon dto) s) [
    | inr (x, s₁, failed) ↦ ground (arith, create_and_save_coupon-redis dto s)
    | inl (c, s₁, saved) ↦
        let rest = finalize_user_rank-Quiet dto.user_id dto.coupon_type rank s₁ in
        ground (arith, create_and_save_coupon-redis dto s, rest.values k)
  ]

  refuse_sold_out-value :
      (dto : IssueCouponDto) (s : State env) (k : Key)
      → (value k (refuse_sold_out dto s).1 ≡ value k s)
        ⊎ ((same_key (coupon_stock dto.coupon_type) k ≡ true)
            × (value k (refuse_sold_out dto s).1 ≡ value (coupon_stock dto.coupon_type) s +ℤ pos 1))
  unfolding refuse_sold_out redis_count
  refuse_sold_out-value dto s k =
      let quiet = remove_user_rank-Quiet dto.user_id dto.coupon_type s in
      elim (run-cases (remove_user_rank dto.user_id dto.coupon_type) s) [
        | inr (x, s₁, failed) ↦ inl (ground (arith, quiet.values k))
        | inl (_, s₁, removed) ↦
            elim (Option-cases (env.redis.incr (coupon_stock dto.coupon_type) s₁.redis)) [
              | inl refused ↦ inl (ground (arith, quiet.values k))
              | inr ((n, r), counted) ↦
                  let up = env.redis.value-incr (coupon_stock dto.coupon_type) s₁.redis counted in
                  elim (Bool-cases (same_key (coupon_stock dto.coupon_type) k)) [
                    | inl own ↦ inr (
                      own,
                      ground (arith, up.0, up.1 k, quiet.values (coupon_stock dto.coupon_type)),
                    )
                    | inr other ↦ inl (ground (arith, up.1 k, quiet.values k))
                  ]
            ]
      ]

  pub refuse_sold_out-raises :
      (dto : IssueCouponDto) (s : State env) {c : Coupon} {s' : State env}
      → (refuse_sold_out dto s ≡ (ok c, s'))
      → ⊥
  unfolding refuse_sold_out
  refuse_sold_out-raises dto s h = ground arith

  -- After the stock was lowered to `n`, what follows ends at the same stock, or, if `n` is below
  -- zero, at one more.
  issue_counted-value :
      (dto : IssueCouponDto) (rank n : ℤ) (t : String) (s : State env)
      → let s' = (if ltb_ℤ n (pos 0) then refuse_sold_out dto s else issue_taken dto rank s).1 in
        (value (coupon_stock t) s' ≡ value (coupon_stock t) s)
        ⊎ ((str_eq dto.coupon_type t ≡ true)
            × (value (coupon_stock t) s' ≡ value (coupon_stock dto.coupon_type) s +ℤ pos 1))
  issue_counted-value dto rank n t s = elim (Bool-cases (ltb_ℤ n (pos 0))) [
    | inl below ↦ elim (refuse_sold_out-value dto s (coupon_stock t)) [
      | inl same ↦ inl (ground (arith, below))
      | inr (own, up) ↦ inr (ground arith, ground arith)
    ]
    | inr left ↦ inl (ground (arith, issue_taken-value dto rank s (coupon_stock t)))
  ]

  -- No outcome of a request raises a stock.
  issue_available-value :
      (dto : IssueCouponDto) (t : String) (s : State env)
      → value (coupon_stock t) (issue_available dto s).1 ≤ℤ value (coupon_stock t) s
  unfolding issue_available redis_count
  issue_available-value dto t s =
      let stock = coupon_stock dto.coupon_type in
      let quiet = record_user_rank-Quiet dto.user_id dto.coupon_type s in
      elim (run-cases (record_user_rank dto.user_id dto.coupon_type) s) [
        | inr (x, s₁, failed) ↦
            same_le (value (coupon_stock t) (issue_available dto s).1) (value (coupon_stock t) s)
              (ground (arith, quiet.values (coupon_stock t)))
        | inl (rank, s₁, ranked) ↦ elim (Option-cases (env.redis.decr stock s₁.redis)) [
          | inl refused ↦
              same_le (value (coupon_stock t) (issue_available dto s).1) (value (coupon_stock t) s)
                (ground (arith, quiet.values (coupon_stock t)))
          | inr ((n, r), counted) ↦
              let down = env.redis.value-decr stock s₁.redis counted in
              let s₂ : State env = record s₁ { redis = r } in
              let ends : (issue_available dto s).1
                  ≡ (if ltb_ℤ n (pos 0)
                      then refuse_sold_out dto s₂
                      else issue_taken dto rank s₂).1 =
                ground arith in
              let after : ℤ = value (coupon_stock t) (issue_available dto s).1 in
              let before : ℤ = value (coupon_stock t) s in
              elim (Bool-cases (str_eq dto.coupon_type t)) [
                | inl own ↦
                    let type : dto.coupon_type ≡ t = (eq_iff dto.coupon_type t).0 own in
                    let lowered : n ≡ before -ℤ pos 1 =
                      ground (arith, down.0, quiet.values stock, type) in
                    elim (issue_counted-value dto rank n t s₂) [
                      | inl same ↦
                          minus_one before after
                            (ground (arith, ends, same, down.1 (coupon_stock t), lowered, own))
                      | inr (_, up) ↦ same_le after before (
                          back before n after lowered (
                            ground (
                              arith,
                              ends,
                              up,
                              down.1 stock,
                              eq_iff dto.coupon_type dto.coupon_type,
                            )))
                    ]
                | inr other ↦ elim (issue_counted-value dto rank n t s₂) [
                  | inl same ↦ same_le after before (
                      ground (
                        arith,
                        ends,
                        same,
                        down.1 (coupon_stock t),
                        quiet.values (coupon_stock t),
                        other,
                      ))
                  | inr (own, _) ↦ ground arith
                ]
              ]
        ]
      ]

  -- A coupon is created only where one was left, and takes it.
  pub issue_available-ok :
      (dto : IssueCouponDto) (s : State env) {c : Coupon} {s' : State env}
      → issue_available dto s ≡ (ok c, s')
      → (pos 1 ≤ℤ value (coupon_stock dto.coupon_type) s)
        × (value (coupon_stock dto.coupon_type) s'
            ≡ value (coupon_stock dto.coupon_type) s -ℤ pos 1)
  unfolding issue_available redis_count
  issue_available-ok dto s {c} {s'} h =
      let stock = coupon_stock dto.coupon_type in
      let quiet = record_user_rank-Quiet dto.user_id dto.coupon_type s in
      elim (run-cases (record_user_rank dto.user_id dto.coupon_type) s) [
        | inr (x, s₁, failed) ↦ ground arith
        | inl (rank, s₁, ranked) ↦ elim (Option-cases (env.redis.decr stock s₁.redis)) [
          | inl refused ↦ ground arith
          | inr ((n, r), counted) ↦
              let down = env.redis.value-decr stock s₁.redis counted in
              let s₂ : State env = record s₁ { redis = r } in
              let lowered : n ≡ value stock s -ℤ pos 1 =
                ground (arith, down.0, quiet.values stock) in
              elim (Bool-cases (ltb_ℤ n (pos 0))) [
                | inl below ↦
                    let sold : refuse_sold_out dto s₂ ≡ (ok c, s') = ground arith in
                    absurd (refuse_sold_out-raises dto s₂ sold)
                | inr left ↦
                    let taken : issue_taken dto rank s₂ ≡ (ok c, s') = ground arith in
                    let kept = issue_taken-value dto rank s₂ stock in
                    (
                      one_left (value stock s) n lowered (ground arith),
                      ground (
                        arith,
                        taken,
                        kept,
                        down.1 stock,
                        eq_iff dto.coupon_type dto.coupon_type,
                        lowered,
                      ),
                    )
              ]
        ]
      ]

  pub issue_coupon-value :
      (dto : IssueCouponDto) (t : String) (s : State env)
      → value (coupon_stock t) (issue_coupon dto s).1 ≤ℤ value (coupon_stock t) s
  unfolding issue_coupon try_issue
  issue_coupon-value dto t s =
      let same = check-unchanged dto.user_id dto.coupon_type s in
      let rest = issue_available-value dto t s in
      elim (run-cases (check_coupon_availability dto.user_id dto.coupon_type) s) [
        | inr (x, s₁, failed) ↦
            same_le (value (coupon_stock t) (issue_coupon dto s).1) (value (coupon_stock t) s)
              (ground (arith, same))
        | inl (can_issue, s₁, checked) ↦ elim (Bool-cases can_issue) [
          | inl allowed ↦
              let ends : (issue_coupon dto s).1 ≡ (issue_available dto s).1 =
                ground (arith, same) in
              rw ends rest
          | inr barred ↦
              same_le (value (coupon_stock t) (issue_coupon dto s).1) (value (coupon_stock t) s)
                (ground (arith, same))
        ]
      ]

  pub issue_coupon-ok :
      (dto : IssueCouponDto) (s : State env) {c : Coupon} {s' : State env}
      → issue_coupon dto s ≡ (ok c, s')
      → (check_coupon_availability dto.user_id dto.coupon_type s ≡ (ok true, s))
        × (issue_available dto s ≡ (ok c, s'))
  unfolding issue_coupon try_issue
  issue_coupon-ok dto s {c} {s'} h =
      let same = check-unchanged dto.user_id dto.coupon_type s in
      elim (run-cases (check_coupon_availability dto.user_id dto.coupon_type) s) [
        | inr (x, s₁, failed) ↦ ground arith
        | inl (can_issue, s₁, checked) ↦ elim (Bool-cases can_issue) [
          | inl allowed ↦ elim (run-cases (issue_available dto) s) [
            | inr (x, s₂, failed) ↦ ground (arith, same)
            | inl (d, s₂, issued) ↦ (ground (arith, same), ground (arith, same))
          ]
          | inr barred ↦ ground arith
        ]
      ]
