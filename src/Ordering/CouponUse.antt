-- ===== src/Ordering/CouponUse.antt =====
-- `validateAndCalculateDiscount` of src/infrastructure/services/coupon.service.ts.
use hanghae_plus_backend.Prelude.{
  ℕ, ◌≡◌, ◌≢◌, ◌⊎◌, inl, inr, refl, sym, ◌∙◌, true, Option, none, some, arith, ◌==◌, if◌then◌else◌,
  Bool-cases, Option-cases,
}
use hanghae_plus_backend.Prelude.Int.{ℤ}
use hanghae_plus_backend.App.{State}
use hanghae_plus_backend.Database.Env.{Env}
use hanghae_plus_backend.App.{run-cases}
use hanghae_plus_backend.Failure.{ok, err, Exception}
use hanghae_plus_backend.Domain.Coupon.{Coupon, is_valid, calculate_discount, use_coupon}
use hanghae_plus_backend.Database.Entity.{CouponEntity}
use hanghae_plus_backend.Repository.Contract.Coupon.{coupon, save-Saved, save-err}
use hanghae_plus_backend.Repository.Coupon.{to_coupon, of_coupon}
use hanghae_plus_backend.Repository.Coupon as Rows
use hanghae_plus_backend.Service.Coupons.{
  CouponResult, no_discount, apply_found, validate_and_calculate_discount,
}

module _ {env : Env} where
  -- The coupon `id`, in row `e` of `s`, was valid and is used now: it gave its discount.
  pub record Used (s s' : State env) (total : ℤ) (r : CouponResult) (id : ℕ) (e : CouponEntity)
      : Type 0 where
    pub known : id ≢ 0
    pub found : coupon s id ≡ some e
    pub valid : is_valid s.now (to_coupon e) ≡ true
    pub discount : r.discount_amount ≡ calculate_discount s.now (to_coupon e) total
    pub marked : r.coupon_used ≡ true
    pub row :
        (j : ℕ) → coupon s' j ≡ (if id == j then some (record e { is_used = true }) else coupon s j)
    pub frame : s' ≡ record s { coupons = s'.coupons }

  apply_found-Used :
      (id : ℕ) (total : ℤ) (s : State env) (e : CouponEntity) {r : CouponResult} {s' : State env}
      → id ≢ 0
      → coupon s id ≡ some e
      → is_valid s.now (to_coupon e) ≡ true
      → apply_found total (some (to_coupon e)) s ≡ (ok r, s')
      → Used s s' total r id e
  unfolding apply_found use_coupon
  apply_found-Used id total s e {r} {s'} known found valid h =
      let own : e.id ≡ id = env.coupons.find_one_key s.coupons id e found in
      let c : Coupon = use_coupon (to_coupon e) in
      elim (run-cases (Rows.save c) s) [
        | inr (x, s₁, failed) ↦ ground arith
        | inl (d, s₁, saved) ↦
            let same : s' ≡ s₁ = ground arith in
            let put = save-Saved c s e (λ z. known (sym own ∙ z)) (ground arith) saved in
            record {
              known = known;
              found = found;
              valid = valid;
              discount = ground arith;
              marked = ground arith;
              row = λ j. ground (arith, put.row j);
              frame = ground (arith, put.frame);
            }
      ]

  -- The call gives no discount and changes nothing, or uses a valid coupon.
  pub discount-cases :
      (coupon_id : Option ℕ) (total : ℤ) (s : State env) {r : CouponResult} {s' : State env}
      → validate_and_calculate_discount coupon_id total s ≡ (ok r, s')
      → ((r ≡ no_discount) × (s' ≡ s))
        ⊎ ((id : ℕ) × (e : CouponEntity) × (coupon_id ≡ some id) × Used s s' total r id e)
  unfolding validate_and_calculate_discount Rows.find_by_id
  discount-cases none total s h = inl (ground arith, ground arith)
  discount-cases (some id) total s {r} {s'} h = elim (Bool-cases (id == 0)) [
    | inl falsy ↦ inl (ground arith, ground arith)
    | inr set ↦ elim (Option-cases (coupon s id)) [
      | inl absent ↦ inl (unfold apply_found in ground arith, unfold apply_found in ground arith)
      | inr (e, found) ↦ elim (Bool-cases (is_valid s.now (to_coupon e))) [
        | inr invalid ↦ inl (unfold apply_found in ground arith, unfold apply_found in ground arith)
        | inl valid ↦ inr (
          id,
          e,
          refl,
          apply_found-Used id total s e {r = r} {s' = s'} (λ z. ground arith) found valid
              (ground arith),
        )
      ]
    ]
  ]

  -- A call that throws has changed nothing: the save of the coupon was refused.
  pub discount-err :
      (coupon_id : Option ℕ) (total : ℤ) (s : State env) {x : Exception} {s' : State env}
      → validate_and_calculate_discount coupon_id total s ≡ (err x, s')
      → s' ≡ s
  unfolding validate_and_calculate_discount Rows.find_by_id apply_found
  discount-err none total s h = ground arith
  discount-err (some id) total s {x} {s'} h = elim (Option-cases (coupon s id)) [
    | inl absent ↦ ground arith
    | inr (e, found) ↦ elim (run-cases (Rows.save (use_coupon (to_coupon e))) s) [
      | inl (d, s₁, saved) ↦ ground arith
      | inr (y, s₁, failed) ↦ ground (arith, save-err (use_coupon (to_coupon e)) s failed)
    ]
  ]

  -- A coupon gives its discount once: where it was used, the next call for the same coupon, at any
  -- later time, gives no discount and changes nothing.
  pub discount_once :
      (id : ℕ) (total total' : ℤ) (later : ℕ) (s : State env) {r : CouponResult} {s' : State env}
      → validate_and_calculate_discount (some id) total s ≡ (ok r, s')
      → r.coupon_used ≡ true
      → validate_and_calculate_discount (some id) total' (record s' { now = later })
        ≡ (ok no_discount, record s' { now = later })
  discount_once id total total' later s {r} {s'} h used =
      elim (discount-cases (some id) total s h) [
        | inl (nothing, same) ↦ ground arith
        | inr (id', e, is_id, first) ↦
            let found : coupon s' id ≡ some (record e { is_used = true }) =
              ground (arith, first.row id) in
            unfold validate_and_calculate_discount Rows.find_by_id apply_found is_valid in
            ground (arith, first.known)
      ]
