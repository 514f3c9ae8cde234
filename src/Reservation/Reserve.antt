-- ===== src/Reservation/Reserve.antt =====
-- src/infrastructure/services/product.service.ts: `validateAndReserveProducts`.
use mathlib.Core.Option
use hanghae_plus_backend.Prelude.{
  ℕ, ◌≡◌, ◌≢◌, inl, inr, refl, ap, Option, none, some, List, [], ◌∷◌, ◌++◌, arith, ◌==◌,
  if◌then◌else◌, Option-cases, All,
}
use hanghae_plus_backend.Prelude.Int.{ℤ, pos, ◌-ℤ◌, ◌≤ℤ◌}
use hanghae_plus_backend.App.{run-cases, State}
use hanghae_plus_backend.Database.Env.{Env}
use hanghae_plus_backend.Failure.{ok, err, Exception, Result-cases}
use hanghae_plus_backend.Dto.{OrderItemDto}
use hanghae_plus_backend.Domain.Product.{Product, decrease_stock}
use hanghae_plus_backend.Validation.Orders.{IsOrderable}
use hanghae_plus_backend.Validation.Product.{validate_product_exists, validate_product_stock}
use hanghae_plus_backend.Database.Entity.{ProductEntity}
use hanghae_plus_backend.Repository.Product.{to_product, of_product}
use hanghae_plus_backend.Repository.Contract.Product.{product, Saved, save-Saved, save-err}
use hanghae_plus_backend.Repository.Product as Rows
use hanghae_plus_backend.Service.Products.{
  Reserved, add_reserved, reserve_product, reserve_one, reserve_each,
}
use hanghae_plus_backend.UseCase.CreateOrder.{event_items}
use hanghae_plus_backend.Reservation.Ordered.{ordered, less, less_zero, less-less}

reserve_product-eq-ok :
    (found : Option Product) (quantity : ℤ) {q : Product}
    → reserve_product found quantity ≡ ok q
    → (p : Product) × (found ≡ some p)
      × (q ≡ record p { stock = p.stock -ℤ quantity })
      × (pos 0 ≤ℤ quantity)
      × (quantity ≤ℤ p.stock)
unfolding reserve_product validate_product_exists validate_product_stock decrease_stock
reserve_product-eq-ok none quantity h = ground arith
reserve_product-eq-ok (some p) quantity h = (p, refl, ground arith, ground arith, ground arith)

module _ {env : Env} where
  reserve_one-found :
      (item : OrderItemDto) (s : State env) (e : ProductEntity) (q : Product) {p : Product}
      {s' : State env}
      → item.product_id ≢ 0
      → product s item.product_id ≡ some e
      → reserve_product (some (to_product e)) item.quantity ≡ ok q
      → reserve_one item s ≡ (ok p, s')
      → (e : ProductEntity) × (product s item.product_id ≡ some e)
        × (p ≡ to_product (record e { stock = e.stock -ℤ item.quantity }))
        × (item.quantity ≤ℤ e.stock)
        × Saved p s s'
  unfolding reserve_one Rows.find_by_id
  reserve_one-found item s e q {p} {s'} known found reserved h =
      let (p₀, is_p, is_q, positive, covered) =
        reserve_product-eq-ok (some (to_product e)) item.quantity reserved in
      let own : e.id ≡ item.product_id =
        env.products.find_one_key s.products item.product_id e found in
      elim (run-cases (Rows.save q) s) [
        | inr (x, s₁, failed) ↦ ground arith
        | inl (v, s₁, saved) ↦
            let same : (p ≡ q) × (s' ≡ s₁) = ground arith in
            let kept : q.id ≢ 0 = λ z. known (ground arith) in
            (e, found, ground arith, ground arith, rw (same.0, same.1) (save-Saved q s kept saved))
      ]

  -- One round takes the quantity off the row of the product.
  pub reserve_one-ok :
      (item : OrderItemDto) (s : State env) {p : Product} {s' : State env}
      → item.product_id ≢ 0
      → reserve_one item s ≡ (ok p, s')
      → (e : ProductEntity) × (product s item.product_id ≡ some e)
        × (p ≡ to_product (record e { stock = e.stock -ℤ item.quantity }))
        × (item.quantity ≤ℤ e.stock)
        × Saved p s s'
  unfolding reserve_one Rows.find_by_id
  reserve_one-ok item s {p} {s'} known h = elim (Option-cases (product s item.product_id)) [
    | inl absent ↦ ground (arith, reserve_product-eq-ok none item.quantity {q = p})
    | inr (e, found) ↦ elim (Result-cases (reserve_product (some (to_product e)) item.quantity)) [
      | inl (x, refused) ↦ ground arith
      | inr (q, reserved) ↦ reserve_one-found item s e q known found reserved h
    ]
  ]

  pub reserve_one-rows :
      (item : OrderItemDto) (s : State env) {p : Product} {s' : State env}
      → IsOrderable item
      → reserve_one item s ≡ (ok p, s')
      → ((i : ℕ)
          → product s' i
            ≡ less (if item.product_id == i then item.quantity else pos 0) (product s i))
        × (s' ≡ record s { products = s'.products })
  reserve_one-rows item s {p} {s'} orderable h =
      let (e, found, is_p, covered, saved) = reserve_one-ok item s (λ z. omega arith) h in
      let own : e.id ≡ item.product_id =
        env.products.find_one_key s.products item.product_id e found in
      ((λ i. ground (arith, saved.row i, less_zero (product s i))), saved.frame)

  -- The loop takes off each row exactly the pieces that the items ask of its product.
  pub reserve_each-rows :
      (items : List OrderItemDto) (acc : Reserved) (s : State env) {r : Reserved} {s' : State env}
      → All IsOrderable items
      → reserve_each items acc s ≡ (ok r, s')
      → ((i : ℕ) → product s' i ≡ less (ordered i (event_items items)) (product s i))
        × (s' ≡ record s { products = s'.products })
  unfolding reserve_each
  reserve_each-rows [] acc s orderable h =
      ((λ i. ground (arith, less_zero (product s i))), ground arith)
  reserve_each-rows (item ∷ items) acc s {r} {s'} orderable h =
      elim (run-cases (reserve_one item) s) [
        | inr (x, s₁, failed) ↦ ground arith
        | inl (p, s₁, reserved) ↦
            let first = reserve_one-rows item s orderable.0 reserved in
            let rest =
              reserve_each-rows items (add_reserved acc p item) s₁ {r = r} {s' = s'} orderable.1
                (ground arith) in
            (
              (λ i. ground (
                arith,
                first.0 i,
                rest.0 i,
                less_zero (less (ordered i (event_items items)) (product s i)),
                less-less item.quantity (ordered i (event_items items)) (product s i),
                less_zero (product s i),
              )),
              ground (arith, first.1, rest.1),
            )
      ]

  -- A round that throws has changed nothing.
  pub reserve_one-err :
      (item : OrderItemDto) (s : State env) {x : Exception} {s' : State env}
      → reserve_one item s ≡ (err x, s')
      → s' ≡ s
  unfolding reserve_one Rows.find_by_id
  reserve_one-err item s {x} {s'} h =
      elim (Result-cases
        (reserve_product (Option.map to_product (product s item.product_id)) item.quantity)) [
          | inl (y, refused) ↦ ground arith
          | inr (q, reserved) ↦ elim (run-cases (Rows.save q) s) [
            | inl (v, s₁, saved) ↦ ground arith
            | inr (y, s₁, failed) ↦ ground (arith, save-err q s failed)
          ]
        ]

  -- A loop that throws has gone through the items before one whose round throws the same, keeps what
  -- they took, and has changed nothing else.
  pub reserve_each-failed :
      (items : List OrderItemDto) (acc : Reserved) (s : State env) {x : Exception} {s' : State env}
      → All IsOrderable items
      → reserve_each items acc s ≡ (err x, s')
      → (done : List OrderItemDto) × (item : OrderItemDto) × (rest : List OrderItemDto)
        × (r : Reserved) × (items ≡ done ++ item ∷ rest)
        × (reserve_each done acc s ≡ (ok r, s'))
        × (reserve_one item s' ≡ (err x, s'))
        × ((i : ℕ) → product s' i ≡ less (ordered i (event_items done)) (product s i))
        × (s' ≡ record s { products = s'.products })
  unfolding reserve_each
  reserve_each-failed [] acc s orderable h = ground arith
  reserve_each-failed (item ∷ items) acc s {x} {s'} orderable h =
      elim (run-cases (reserve_one item) s) [
        | inr (y, s₁, failed) ↦
            let same = reserve_one-err item s failed in
            let here : s' ≡ s = ground (arith, same) in
            (
              [],
              item,
              items,
              acc,
              refl,
              ground (arith, here),
              ground (arith, here, same),
              (λ i. ground (arith, here, less_zero (product s i))),
              ground (arith, here),
            )
        | inl (p, s₁, reserved) ↦
            let first = reserve_one-rows item s orderable.0 reserved in
            let (done, last, rest, r, split, before, failed, rows, frame) =
              reserve_each-failed items (add_reserved acc p item) s₁ {x = x} {s' = s'} orderable.1
                (ground arith) in
            (
              item ∷ done,
              last,
              rest,
              r,
              ap (λ t. item ∷ t) split,
              ground (arith, before),
              failed,
              (λ i. ground (
                arith,
                first.0 i,
                rows i,
                less_zero (less (ordered i (event_items done)) (product s i)),
                less-less item.quantity (ordered i (event_items done)) (product s i),
                less_zero (product s i),
              )),
              ground (arith, first.1, frame),
            )
      ]
