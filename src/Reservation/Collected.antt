-- ===== src/Reservation/Collected.antt =====
-- What `validateAndReserveProducts` returns: the order items, their total, and the products.
use mathlib.Core.Path.{fun_ext}
use mathlib.Core.List.{append_assoc, append-nil}
use hanghae_plus_backend.Prelude.{
  ◌≡◌, inl, inr, refl, ap, Option, none, some, List, [], ◌∷◌, ◌++◌, map, arith, ◌==◌, if◌then◌else◌,
  All,
}
use hanghae_plus_backend.Prelude.Int.{ℤ, pos, ◌+ℤ◌, ◌*ℤ◌, int_laws}
use hanghae_plus_backend.App.{State}
use hanghae_plus_backend.Database.Env.{Env}
use hanghae_plus_backend.App.{run-cases}
use hanghae_plus_backend.Failure.{ok}
use hanghae_plus_backend.Dto.{OrderItemDto}
use hanghae_plus_backend.Domain.Product.{Product}
use hanghae_plus_backend.Domain.Order.{OrderItem}
use hanghae_plus_backend.Database.Entity.{ProductEntity}
use hanghae_plus_backend.Validation.Orders.{IsOrderable}
use hanghae_plus_backend.Repository.Contract.Product.{product}
use hanghae_plus_backend.Service.Products.{Reserved, add_reserved, reserve_one, reserve_each}
use hanghae_plus_backend.Reservation.Ordered.{less}
use hanghae_plus_backend.Reservation.Reserve.{reserve_one-ok, reserve_one-rows}

-- The amount of a list of order items.
abbrev pub amount : List OrderItem → ℤ
amount [] = pos 0
amount (item ∷ items) = item.price *ℤ item.quantity +ℤ amount items

amount-append : (xs ys : List OrderItem) → amount (xs ++ ys) ≡ amount xs +ℤ amount ys
amount-append [] ys = omega int_laws
amount-append (x ∷ xs) ys = rw (amount-append xs ys) (omega int_laws)

abbrev pub price_of : Option ProductEntity → ℤ
price_of none = pos 0
price_of (some e) = e.price

price_of-less : (n : ℤ) (r : Option ProductEntity) → price_of (less n r) ≡ price_of r
price_of-less n none = refl
price_of-less n (some e) = refl

module _ {env : Env} where
  -- The item of the request with the price of the product's row.
  abbrev pub priced : State env → OrderItemDto → OrderItem
  priced s item = record {
    product_id = item.product_id;
    quantity = item.quantity;
    price = price_of (product s item.product_id);
  }

  priced-reserve_one :
      (item : OrderItemDto) (s : State env) {p : Product} {s' : State env}
      → IsOrderable item
      → reserve_one item s ≡ (ok p, s')
      → priced s' ≡ priced s
  priced-reserve_one item s {p} {s'} orderable h =
      let rows = reserve_one-rows item s orderable h in
      fun_ext λ other. ground (
        arith,
        rows.0 other.product_id,
        price_of-less (if item.product_id == other.product_id then item.quantity else pos 0)
            (product s other.product_id),
      )

  price-reserve_one :
      (item : OrderItemDto) (s : State env) {p : Product} {s' : State env}
      → IsOrderable item
      → reserve_one item s ≡ (ok p, s')
      → p.price ≡ price_of (product s item.product_id)
  price-reserve_one item s orderable h =
      let (e, found, is_p, covered, saved) = reserve_one-ok item s (λ z. omega arith) h in
      ground arith

  -- The order items are those of the request, each at the price of the product's row, and the total
  -- is their amount.
  pub reserve_each-collects :
      (items : List OrderItemDto) (acc : Reserved) (s : State env) {r : Reserved} {s' : State env}
      → All IsOrderable items
      → reserve_each items acc s ≡ (ok r, s')
      → (r.order_items ≡ acc.order_items ++ map (priced s) items)
        × (r.total_amount ≡ acc.total_amount +ℤ amount (map (priced s) items))
  unfolding reserve_each
  reserve_each-collects [] acc s orderable h = (
    ground (arith, append-nil acc.order_items),
    let same : acc.total_amount +ℤ pos 0 ≡ acc.total_amount = omega int_laws in ground arith,
  )
  reserve_each-collects (item ∷ items) acc s {r} {s'} orderable h =
      elim (run-cases (reserve_one item) s) [
        | inr (x, s₁, failed) ↦ ground arith
        | inl (p, s₁, reserved) ↦
            let price = price-reserve_one item s orderable.0 reserved in
            let prices = priced-reserve_one item s orderable.0 reserved in
            let rest =
              reserve_each-collects items (add_reserved acc p item) s₁ {r = r} {s' = s'} orderable.1
                (ground arith) in
            let regroup : acc.total_amount
                  +ℤ p.price *ℤ item.quantity
                  +ℤ amount (map (priced s) items)
                ≡ acc.total_amount +ℤ (p.price *ℤ item.quantity +ℤ amount (map (priced s) items)) =
              omega int_laws in
            (
              ground (
                arith,
                rest.0,
                ap (λ f. map f items) prices,
                append_assoc acc.order_items
                    (record {
                      product_id = item.product_id;
                      quantity = item.quantity;
                      price = p.price;
                    }
                      ∷ [])
                    (map (priced s) items),
              ),
              ground (arith, rest.1, ap (λ f. map f items) prices, regroup),
            )
      ]
