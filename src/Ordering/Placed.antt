-- ===== src/Ordering/Placed.antt =====
-- Steps 4 to 6 of src/application/use-cases/orders/create-order.use-case.ts: the order that is saved.
use hanghae_plus_backend.Prelude.{
  ℕ, ◌≡◌, ◌≢◌, inl, inr, refl, ap, Option, none, some, arith, ◌==◌, if◌then◌else◌, Option-cases,
}
use hanghae_plus_backend.Prelude.Int.{ℤ, pos, ◌-ℤ◌, ◌≤ℤ◌}
use hanghae_plus_backend.App.{State}
use hanghae_plus_backend.Database.Env.{Env}
use hanghae_plus_backend.App.{run-cases}
use hanghae_plus_backend.Failure.{ok, Result-cases}
use hanghae_plus_backend.Dto.{CreateOrderDto}
use hanghae_plus_backend.Domain.Order.{Order}
use hanghae_plus_backend.Database.Entity.{UserEntity}
use hanghae_plus_backend.Validation.Order.{validate_order}
use hanghae_plus_backend.Validation.Orders.{InStock, validate_order-eq-ok}
use hanghae_plus_backend.Repository.Contract.User.{user}
use hanghae_plus_backend.Repository.Contract.Order.{order, save-new}
use hanghae_plus_backend.Repository.Order.{of_order}
use hanghae_plus_backend.Repository.Order as Rows
use hanghae_plus_backend.Repository.User as UserRows
use hanghae_plus_backend.Repository.User.{to_user}
use hanghae_plus_backend.Service.Products.{Reserved}
use hanghae_plus_backend.Service.Users
use hanghae_plus_backend.Service.Coupons.{CouponResult, validate_and_calculate_discount}
use hanghae_plus_backend.Service.Orders.{OrderData, new_order, create_order}
use hanghae_plus_backend.UseCase.CreateOrder.{place_order}
use hanghae_plus_backend.Ordering.CouponUse.{discount-cases}

module _ {env : Env} where
  -- An order as the service saves it.
  pub create_order-new :
      (d : OrderData) (s : State env) {o : Order} {s' : State env}
      → create_order d s ≡ (ok o, s')
      → (o ≡ record (new_order d) { id = o.id })
        × (o.id ≢ 0)
        × (order s o.id ≡ none)
        × ((i : ℕ)
            → order s' i ≡ (if o.id == i then some (of_order o.id o.user_id o) else order s i))
        × (s' ≡ record s { orders = s'.orders })
  unfolding create_order
  create_order-new d s {o} {s'} h = elim (run-cases (Rows.save (new_order d)) s) [
    | inr (x, s₁, failed) ↦ ground arith
    | inl (v, s₁, saved) ↦
        let same : (v ≡ o) × (s₁ ≡ s') = ground arith in
        let put = save-new (new_order d) s {v = v} {s' = s₁} refl saved in
        (
          ground (arith, put.1),
          ground (arith, put.2),
          ground (arith, put.3),
          (λ i. ground (arith, put.0.row i, put.1)),
          ground (arith, put.0.frame),
        )
  ]

  -- The order `o`, placed for a request whose products are reserved.
  pub record Placed (dto : CreateOrderDto) (reserved : Reserved) (s s' : State env) (o : Order)
      : Type 0 where
    pub payer : UserEntity
    pub has_payer : user s dto.user_id ≡ some payer
    pub instock : InStock dto.items reserved.products
    pub covered : o.final_amount ≤ℤ payer.points
    pub positive : pos 1 ≤ℤ o.total_amount
    pub nonneg : pos 0 ≤ℤ o.final_amount
    pub total : o.total_amount ≡ reserved.total_amount
    pub final : o.final_amount ≡ o.total_amount -ℤ o.discount_amount
    pub items : o.items ≡ reserved.order_items
    pub owner : o.user_id ≡ dto.user_id
    pub coupon : o.coupon_id ≡ dto.coupon_id
    pub pending : o.status ≡ "PENDING"
    pub fresh : (o.id ≢ 0) × (order s o.id ≡ none)
    pub row :
        (i : ℕ) → order s' i ≡ (if o.id == i then some (of_order o.id o.user_id o) else order s i)
    pub discounted : CouponResult
    pub after_discount : State env
    pub discounts :
        validate_and_calculate_discount dto.coupon_id reserved.total_amount s
        ≡ (ok discounted, after_discount)
    pub discount :
        (o.discount_amount ≡ discounted.discount_amount) × (o.coupon_used ≡ discounted.coupon_used)
    pub frame : s' ≡ record after_discount { orders = s'.orders }
    pub frame_coupons : after_discount ≡ record s { coupons = after_discount.coupons }

  pub discount-frame :
      (coupon_id : Option ℕ) (total : ℤ) (s : State env) {r : CouponResult} {s' : State env}
      → validate_and_calculate_discount coupon_id total s ≡ (ok r, s')
      → s' ≡ record s { coupons = s'.coupons }
  discount-frame coupon_id total s h = elim (discount-cases coupon_id total s h) [
    | inl (nothing, same) ↦ ground arith
    | inr (id, e, is_id, used) ↦ used.frame
  ]

  pub place_order-Placed :
      (dto : CreateOrderDto) (reserved : Reserved) (s : State env) {o : Order} {s' : State env}
      → place_order dto reserved s ≡ (ok o, s')
      → Placed dto reserved s s' o
  unfolding place_order Users.validate_user UserRows.find_by_id
  place_order-Placed dto reserved s {o} {s'} h = elim (Option-cases (user s dto.user_id)) [
    | inl absent ↦ ground arith
    | inr (u, found) ↦
        elim (run-cases (validate_and_calculate_discount dto.coupon_id reserved.total_amount) s) [
          | inr (x, s₁, failed) ↦ ground arith
          | inl (r, s₁, discounts) ↦
              let total = reserved.total_amount in
              let final : ℤ = total -ℤ r.discount_amount in
              let check =
                validate_order-eq-ok dto.items reserved.products (to_user u) r.coupon total final in
              elim (Result-cases
                (validate_order dto.items reserved.products (to_user u) r.coupon total final)) [
                  | inl (x, refused) ↦ ground arith
                  | inr (_, valid) ↦
                      let d : OrderData = record {
                        user_id = dto.user_id;
                        order_items = reserved.order_items;
                        total_amount = total;
                        discount_amount = r.discount_amount;
                        final_amount = final;
                        coupon_id = dto.coupon_id;
                        coupon_used = r.coupon_used;
                      } in
                      let placed : create_order d s₁ ≡ (ok o, s') = ground (arith, valid) in
                      let (is_o, known, unknown, rows, kept) = create_order-new d s₁ placed in
                      let (some_items, orderable, instock, covered, positive, nonneg) =
                        check.0 (ground (arith, valid)) in
                      let unchanged = discount-frame dto.coupon_id total s discounts in
                      record {
                        payer = u;
                        has_payer = found;
                        instock = instock;
                        covered = rw is_o covered;
                        positive = rw is_o positive;
                        nonneg = rw is_o nonneg;
                        total = ap (λ x. x.total_amount) is_o;
                        final = rw is_o;
                        items = ap (λ x. x.items) is_o;
                        owner = ap (λ x. x.user_id) is_o;
                        coupon = ap (λ x. x.coupon_id) is_o;
                        pending = ap (λ x. x.status) is_o;
                        fresh = (known, ground (arith, unknown, unchanged));
                        row = λ i. ground (arith, rows i, unchanged);
                        discounted = r;
                        after_discount = s₁;
                        discounts = discounts;
                        discount = (ap (λ x. x.discount_amount) is_o, ap (λ x. x.coupon_used) is_o);
                        frame = kept;
                        frame_coupons = unchanged;
                      }
                ]
        ]
  ]
