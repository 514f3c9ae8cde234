-- ===== src/Issuing/Issued.antt =====
-- `issueCoupon` of src/infrastructure/services/coupon.service.ts, when it returns.
use hanghae_plus_backend.Prelude.{
  ℕ, ◌≡◌, ◌≢◌, inl, inr, refl, String, none, some, arith, ◌==◌, if◌then◌else◌, Option-cases,
  Bool-cases, eq_iff,
}
use hanghae_plus_backend.Prelude.Int.{ℤ, pos, ◌-ℤ◌, ◌≤ℤ◌, ltb_ℤ}
use hanghae_plus_backend.App.{State, run-cases}
use hanghae_plus_backend.Database.Env.{Env}
use hanghae_plus_backend.Database.Redis.{coupon_queue, coupon_issued, coupon_rank, coupon_stock}
use hanghae_plus_backend.Dto.{IssueCouponDto}
use hanghae_plus_backend.Failure.{ok}
use hanghae_plus_backend.Domain.Coupon.{Coupon, CouponType}
use hanghae_plus_backend.Repository.Coupon as Rows
use hanghae_plus_backend.Repository.Coupon.{of_coupon}
use hanghae_plus_backend.Repository.Contract.Coupon.{coupon, save-new}
use hanghae_plus_backend.Service.RedisCall.{zadd, redis_count}
use hanghae_plus_backend.Service.Issuing.{
  coupon_type_of, new_coupon, create_and_save_coupon, save_ranking_log_async, finalize_user_rank,
  record_user_rank, remove_user_rank, refuse_sold_out, issue_taken, issue_available, issue_coupon,
}
use hanghae_plus_backend.Issuing.Calls.{
  value, score, zadd-score, zrem-score, check-available, record_user_rank-Quiet,
  finalize_user_rank-Quiet,
}
use hanghae_plus_backend.Issuing.Stock.{refuse_sold_out-raises, issue_available-ok, issue_coupon-ok}

module _ {env : Env} where
  -- The user has the coupon and waits for it no more.
  finalize_user_rank-score :
      (user_id : ℕ) (t : String) (rank : ℤ) (s : State env) {s' : State env}
      → finalize_user_rank user_id t rank s ≡ (ok tt, s')
      → (score (coupon_issued t) user_id s' ≡ some (pos s.now))
        × (score (coupon_queue t) user_id s' ≡ none)
  unfolding finalize_user_rank remove_user_rank
  finalize_user_rank-score user_id t rank s {s'} h =
      elim (run-cases (zadd (coupon_issued t) (pos s.now) user_id) s) [
        | inr (x, s₁, failed) ↦ ground arith
        | inl (_, s₁, one) ↦ elim (run-cases (zadd (coupon_rank t) rank user_id) s₁) [
          | inr (x, s₂, failed) ↦ ground arith
          | inl (_, s₂, two) ↦
              let same = eq_iff t t in
              let put =
                zadd-score (coupon_issued t) (pos s.now) user_id s {s' = s₁} (ground arith)
                  (coupon_issued t) user_id in
              let kept =
                zadd-score (coupon_rank t) rank user_id s₁ {s' = s₂} (ground arith)
                  (coupon_issued t) user_id in
              let gone = zrem-score (coupon_queue t) user_id s₂ {s' = s'} (ground arith) in
              (
                ground (arith, put, kept, gone (coupon_issued t) user_id, same),
                ground (arith, gone (coupon_queue t) user_id, same),
              )
        ]
      ]

  -- The coupon `c`, of type `t`, issued for a request.
  pub record Issued (dto : IssueCouponDto) (t : CouponType) (s s' : State env) (c : Coupon)
      : Type 0 where
    pub known : coupon_type_of dto.coupon_type ≡ some t
    -- The user had no such coupon and did not wait for one; now the user has it, and waits no more.
    pub unissued : score (coupon_issued dto.coupon_type) dto.user_id s ≡ none
    pub unqueued : score (coupon_queue dto.coupon_type) dto.user_id s ≡ none
    pub issued : score (coupon_issued dto.coupon_type) dto.user_id s' ≡ some (pos s.now)
    pub dequeued : score (coupon_queue dto.coupon_type) dto.user_id s' ≡ none
    -- One was left in stock, and was taken.
    pub left : pos 1 ≤ℤ value (coupon_stock dto.coupon_type) s
    pub taken :
        value (coupon_stock dto.coupon_type) s' ≡ value (coupon_stock dto.coupon_type) s -ℤ pos 1
    -- The coupon is a new row, unused, of the user and with what its type gives.
    pub made : c ≡ record (new_coupon s.now dto.user_id t) { id = c.id }
    pub fresh : (c.id ≢ 0) × (coupon s c.id ≡ none)
    pub row : (i : ℕ) → coupon s' i ≡ (if c.id == i then some (of_coupon c.id c) else coupon s i)
    pub frame : s' ≡ record s { coupons = s'.coupons; redis = s'.redis; logs = s'.logs }

  -- The part of `Issued` that begins once the stock was lowered.
  issue_taken-row :
      (dto : IssueCouponDto) (rank : ℤ) (s : State env) {c : Coupon} {s' : State env}
      → issue_taken dto rank s ≡ (ok c, s')
      → (t : CouponType) × (coupon_type_of dto.coupon_type ≡ some t)
        × (score (coupon_issued dto.coupon_type) dto.user_id s' ≡ some (pos s.now))
        × (score (coupon_queue dto.coupon_type) dto.user_id s' ≡ none)
        × (c ≡ record (new_coupon s.now dto.user_id t) { id = c.id })
        × (c.id ≢ 0)
        × (coupon s c.id ≡ none)
        × ((i : ℕ) → coupon s' i ≡ (if c.id == i then some (of_coupon c.id c) else coupon s i))
        × (s' ≡ record s { coupons = s'.coupons; redis = s'.redis; logs = s'.logs })
  unfolding issue_taken create_and_save_coupon save_ranking_log_async
  issue_taken-row dto rank s {c} {s'} h = elim (Option-cases (coupon_type_of dto.coupon_type)) [
    | inl unknown ↦ ground arith
    | inr (t, known) ↦ elim (run-cases (Rows.save (new_coupon s.now dto.user_id t)) s) [
      | inr (x, s₁, failed) ↦ ground arith
      | inl (d, s₁, saved) ↦
          let (rows, is_d, set, unknown, kept) =
            save-new (new_coupon s.now dto.user_id t) s refl saved in
          let quiet = finalize_user_rank-Quiet dto.user_id dto.coupon_type rank s₁ in
          elim (run-cases (finalize_user_rank dto.user_id dto.coupon_type rank) s₁) [
            | inr (x, s₂, failed) ↦ ground arith
            | inl (_, s₂, final) ↦
                let scores =
                  finalize_user_rank-score dto.user_id dto.coupon_type rank s₁ {s' = s₂}
                    (ground arith) in
                let same : c ≡ d = ground arith in
                (
                  t,
                  known,
                  ground (arith, scores, kept),
                  ground (arith, scores),
                  rw same is_d,
                  rw same set,
                  rw same unknown,
                  (λ i. ground (arith, rows i, is_d, quiet.frame)),
                  ground (arith, quiet.frame, kept),
                )
          ]
    ]
  ]

  issue_available-taken :
      (dto : IssueCouponDto) (s : State env) {c : Coupon} {s' : State env}
      → issue_available dto s ≡ (ok c, s')
      → (rank : ℤ) × (s₂ : State env) × (issue_taken dto rank s₂ ≡ (ok c, s'))
        × (s₂ ≡ record s { redis = s₂.redis })
  unfolding issue_available redis_count
  issue_available-taken dto s {c} {s'} h =
      let quiet = record_user_rank-Quiet dto.user_id dto.coupon_type s in
      elim (run-cases (record_user_rank dto.user_id dto.coupon_type) s) [
        | inr (x, s₁, failed) ↦ ground arith
        | inl (rank, s₁, ranked) ↦
            elim (Option-cases (env.redis.decr (coupon_stock dto.coupon_type) s₁.redis)) [
              | inl refused ↦ ground arith
              | inr ((n, r), counted) ↦
                  let s₂ : State env = record s₁ { redis = r } in
                  elim (Bool-cases (ltb_ℤ n (pos 0))) [
                    | inl below ↦
                        let sold : refuse_sold_out dto s₂ ≡ (ok c, s') = ground arith in
                        absurd (refuse_sold_out-raises dto s₂ sold)
                    | inr left ↦ (rank, s₂, ground arith, ground (arith, quiet.frame))
                  ]
            ]
      ]

  -- A request for a coupon that is answered was of a known type and of a user who neither had such a
  -- coupon nor waited for one, and found one in stock: the stock is lower by one, the user is on
  -- record, and a new unused coupon of that user, with the discount and expiry of its type, is the
  -- one row of any table that has changed.
  pub issue_coupon-Issued :
      (dto : IssueCouponDto) (s : State env) {c : Coupon} {s' : State env}
      → issue_coupon dto s ≡ (ok c, s')
      → (t : CouponType) × Issued dto t s s' c
  issue_coupon-Issued dto s {c} {s'} h =
      let (checked, available) = issue_coupon-ok dto s h in
      let free = check-available dto.user_id dto.coupon_type s checked in
      let stock = issue_available-ok dto s available in
      let (rank, s₂, taken, kept) = issue_available-taken dto s available in
      let (t, known, issued, dequeued, made, set, unknown, rows, frame) =
        issue_taken-row dto rank s₂ taken in
      (
        t,
        record {
          known = known;
          unissued = free.0;
          unqueued = free.1;
          issued = ground (arith, issued, kept);
          dequeued = dequeued;
          left = stock.0;
          taken = stock.1;
          made = ground (arith, made, kept);
          fresh = (set, ground (arith, unknown, kept));
          row = λ i. ground (arith, rows i, kept);
          frame = ground (arith, frame, kept);
        },
      )
