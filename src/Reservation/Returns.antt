-- ===== src/Reservation/Returns.antt =====
-- `validateAndReserveProducts` of src/infrastructure/services/product.service.ts returns where the
-- stock suffices, on a table that accepts every save.
use mathlib.Core.List.{append-nil, append_assoc}
use hanghae_plus_backend.Prelude.{
  ℕ, ◌≡◌, refl, sym, ◌∙◌, some, List, [], ◌∷◌, ◌++◌, arith, All, All-mono, ◌==◌, if◌then◌else◌,
}
use hanghae_plus_backend.Prelude.Int.{ℤ, pos, ◌≤ℤ◌, ◌+ℤ◌, ◌-ℤ◌, int_laws}
use hanghae_plus_backend.App.{State}
use hanghae_plus_backend.Database.Env.{Env}
use hanghae_plus_backend.Database.Accepts.{Accepts}
use hanghae_plus_backend.Database.Entity.{ProductEntity}
use hanghae_plus_backend.Failure.{ok}
use hanghae_plus_backend.Dto.{OrderItemDto}
use hanghae_plus_backend.Domain.Product.{Product, decrease_stock}
use hanghae_plus_backend.Repository.Product as ProductRows
use hanghae_plus_backend.Repository.Product.{of_product, to_product}
use hanghae_plus_backend.Repository.Contract.Product.{product}
use hanghae_plus_backend.Service.Products.{
  Reserved, add_reserved, reserve_product, reserve_one, reserve_each,
}
use hanghae_plus_backend.UseCase.CreateOrder.{event_items}
use hanghae_plus_backend.Validation.Product.{validate_product_exists, validate_product_stock}
use hanghae_plus_backend.Validation.Orders.{IsOrderable, InStock}
use hanghae_plus_backend.Reservation.Ordered.{ordered}
use hanghae_plus_backend.Reservation.Reserve.{reserve_one-ok, reserve_one-rows}

add_nonneg : (a b : ℤ) → pos 1 ≤ℤ a → pos 0 ≤ℤ b → pos 0 ≤ℤ a +ℤ b
add_nonneg a b h k = omega int_laws

take_left : (t r q n : ℤ) → t +ℤ r +ℤ q ≤ℤ n → r +ℤ q ≤ℤ n -ℤ t
take_left t r q n h = omega int_laws

pad_zero : (a : ℤ) → a ≡ pos 0 +ℤ a
pad_zero a = omega int_laws

twice-le : (q r n : ℤ) → pos 0 ≤ℤ r → q +ℤ r +ℤ q ≤ℤ n → q ≤ℤ n -ℤ q
twice-le q r n h k = omega int_laws

once-le : (q r n : ℤ) → pos 0 ≤ℤ r → pos 1 ≤ℤ q → q +ℤ r +ℤ q ≤ℤ n → q ≤ℤ n
once-le q r n h k l = omega int_laws

ordered_nonneg :
    (i : ℕ) (items : List OrderItemDto)
    → All IsOrderable items
    → pos 0 ≤ℤ ordered i (event_items items)
ordered_nonneg i [] h = omega arith
ordered_nonneg i (item ∷ items) h =
    let rest = ordered_nonneg i items h.1 in
    ground (arith, rest, add_nonneg item.quantity (ordered i (event_items items)) h.0.1 rest)

module _ {env : Env} where
  -- The stock of the item's product covers what all items ask of it, and the item once more.
  abbrev pub IsCovered : State env → List OrderItemDto → OrderItemDto → Type 0
  IsCovered s items item =
      (e : ProductEntity) × (product s item.product_id ≡ some e)
      × (ordered item.product_id (event_items items) +ℤ item.quantity ≤ℤ e.stock)

  reserve_one-returns :
      (item : OrderItemDto) (e : ProductEntity) (s : State env)
      → Accepts env.products
      → IsOrderable item
      → product s item.product_id ≡ some e
      → item.quantity ≤ℤ e.stock
      → (p : Product) × (s' : State env) × (reserve_one item s ≡ (ok p, s'))
  unfolding reserve_one reserve_product ProductRows.find_by_id ProductRows.save
      validate_product_exists validate_product_stock decrease_stock
  reserve_one-returns item e s accepts orderable found covered =
      let q : Product = record (to_product e) { stock = e.stock -ℤ item.quantity } in
      let (e', rows, saved) = accepts s.products (of_product q) in
      (q, record s { products = rows }, ground (arith, saved))

  -- What is left covers the items that are left.
  IsCovered-reserve_one :
      (item other : OrderItemDto) (items : List OrderItemDto) (s : State env) {p : Product}
      {s' : State env}
      → IsOrderable item
      → reserve_one item s ≡ (ok p, s')
      → IsCovered s (item ∷ items) other
      → IsCovered s' items other
  IsCovered-reserve_one item other items s {p} {s'} orderable h (e, found, covered) =
      let row = (reserve_one-rows item s orderable h).0 other.product_id in
      let taken : ℤ = if item.product_id == other.product_id then item.quantity else pos 0 in
      let left : ProductEntity = record e { stock = e.stock -ℤ taken } in
      let now : product s' other.product_id ≡ some left = ground (arith, row, found) in
      let all : ordered other.product_id (event_items (item ∷ items))
          ≡ taken +ℤ ordered other.product_id (event_items items) =
        ground (arith, pad_zero (ordered other.product_id (event_items items))) in
      (
        left,
        now,
        take_left taken (ordered other.product_id (event_items items)) other.quantity e.stock
            (rw all at covered),
      )

  -- The loop returns, and each product that it returns has the item's quantity left.
  pub reserve_each-returns :
      (items : List OrderItemDto) (acc : Reserved) (s : State env)
      → Accepts env.products
      → All IsOrderable items
      → All (IsCovered s items) items
      → (r : Reserved) × (s' : State env) × (products : List Product) × (reserve_each items acc s
          ≡ (ok r, s'))
        × (r.products ≡ acc.products ++ products)
        × InStock items products
  unfolding reserve_each
  reserve_each-returns [] acc s accepts orderable covered =
      (acc, s, [], refl, sym (append-nil acc.products), tt)
  reserve_each-returns (item ∷ items) acc s accepts orderable ((e, found, bound), others) =
      let rest = ordered_nonneg item.product_id items orderable.1 in
      let own : item.quantity +ℤ ordered item.product_id (event_items items) +ℤ item.quantity
          ≤ℤ e.stock =
        ground arith in
      let enough =
        once-le item.quantity (ordered item.product_id (event_items items)) e.stock rest
          orderable.0.1 own in
      let (p, s₁, reserved) = reserve_one-returns item e s accepts orderable.0 found enough in
      let (e', found', is_p, _, _) = reserve_one-ok item s (λ z. omega arith) reserved in
      let left : p.stock ≡ e.stock -ℤ item.quantity = ground arith in
      let (r, s', products, returns, split, stocked) =
        reserve_each-returns items (add_reserved acc p item) s₁ accepts orderable.1 (
          All-mono (λ other. IsCovered-reserve_one item other items s orderable.0 reserved) items
            others) in
      (
        r,
        s',
        p ∷ products,
        ground (arith, returns),
        split ∙ append_assoc acc.products (p ∷ []) products,
        (
          rw left (
              twice-le item.quantity (ordered item.product_id (event_items items)) e.stock rest
                own),
          stocked,
        ),
      )
