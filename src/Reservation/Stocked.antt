-- ===== src/Reservation/Stocked.antt =====
-- Stock bounds: no row goes below zero, and what the products that a reservation returns say of the
-- rows before it.
use mathlib.Core.Path.{subst}
use mathlib.Core.List.{append_assoc, append-nil}
use hanghae_plus_backend.Prelude.{
  ℕ, ◌≡◌, inl, inr, sym, ap, ◌∙◌, some, List, [], ◌∷◌, ◌++◌, arith, ◌==◌, if◌then◌else◌, Bool-cases,
  Option-cases, All,
}
use hanghae_plus_backend.Prelude.Int.{ℤ, pos, ◌+ℤ◌, ◌-ℤ◌, ◌≤ℤ◌, int_laws}
use hanghae_plus_backend.App.{State}
use hanghae_plus_backend.Database.Env.{Env}
use hanghae_plus_backend.Prelude.{All-mono}
use hanghae_plus_backend.App.{run-cases}
use hanghae_plus_backend.Failure.{ok}
use hanghae_plus_backend.Dto.{OrderItemDto}
use hanghae_plus_backend.Domain.Product.{Product}
use hanghae_plus_backend.Database.Entity.{ProductEntity}
use hanghae_plus_backend.Validation.Orders.{IsOrderable, InStock}
use hanghae_plus_backend.Repository.Contract.Product.{product}
use hanghae_plus_backend.Service.Products.{Reserved, add_reserved, reserve_one, reserve_each}
use hanghae_plus_backend.Reservation.Reserve.{reserve_one-ok, reserve_one-rows, reserve_one-err}

module _ {env : Env} where
  -- No product has a stock below zero.
  abbrev pub IsStocked : State env → Type 0
  IsStocked s = (i : ℕ) (e : ProductEntity) → product s i ≡ some e → pos 0 ≤ℤ e.stock

  reserve_one-IsStocked :
      (item : OrderItemDto) (s : State env) {p : Product} {s' : State env}
      → IsOrderable item
      → IsStocked s
      → reserve_one item s ≡ (ok p, s')
      → IsStocked s'
  reserve_one-IsStocked item s {p} {s'} orderable stocked h i e' found =
      let (e, known, is_p, covered, saved) = reserve_one-ok item s (λ z. omega arith) h in
      elim (Bool-cases (p.id == i)) [
        | inl own ↦
            let left : e'.stock ≡ e.stock -ℤ item.quantity = ground (arith, saved.row i) in
            rw left (omega int_laws)
        | inr other ↦ stocked i e' (ground (arith, saved.row i))
      ]

  -- The loop keeps every stock at zero or above, whether it returns or throws.
  pub reserve_each-IsStocked :
      (items : List OrderItemDto) (acc : Reserved) (s : State env)
      → All IsOrderable items
      → IsStocked s
      → IsStocked (reserve_each items acc s).1
  unfolding reserve_each
  reserve_each-IsStocked [] acc s orderable stocked = stocked
  reserve_each-IsStocked (item ∷ items) acc s orderable stocked =
      elim (run-cases (reserve_one item) s) [
        | inr (x, s₁, failed) ↦
            let same : (reserve_each (item ∷ items) acc s).1 ≡ s =
              ground (arith, reserve_one-err item s failed) in
            subst IsStocked (sym same) stocked
        | inl (p, s₁, reserved) ↦
            let same : (reserve_each (item ∷ items) acc s).1
                ≡ (reserve_each items (add_reserved acc p item) s₁).1 =
              ground arith in
            subst IsStocked (sym same) (
              reserve_each-IsStocked items (add_reserved acc p item) s₁ orderable.1
                (reserve_one-IsStocked item s orderable.0 stocked reserved))
      ]

  -- There are twice as many pieces as the item asks for.
  abbrev pub HasTwice : State env → OrderItemDto → Type 0
  HasTwice s item =
      (e : ProductEntity) × (product s item.product_id ≡ some e)
      × (item.quantity +ℤ item.quantity ≤ℤ e.stock)

  HasTwice-before :
      (item other : OrderItemDto) (s : State env) {p : Product} {s' : State env}
      → IsOrderable item
      → reserve_one item s ≡ (ok p, s')
      → HasTwice s' other
      → HasTwice s other
  HasTwice-before item other s {p} {s'} orderable h (e', found, twice) =
      let rows = reserve_one-rows item s orderable h in
      elim (Option-cases (product s other.product_id)) [
        | inl absent ↦ ground (arith, rows.0 other.product_id)
        | inr (e, known) ↦
            let taken : ℤ = if item.product_id == other.product_id then item.quantity else pos 0 in
            let left : e'.stock ≡ e.stock -ℤ taken = ground (arith, rows.0 other.product_id) in
            let some_taken : pos 0 ≤ℤ taken = ground arith in
            let bound : other.quantity +ℤ other.quantity ≤ℤ e.stock -ℤ taken = rw left at twice in
            (e, known, omega int_laws)
      ]

  -- The products that the loop returns are as they are after their decrease: if each of them still
  -- has the quantity of its item, there was twice that quantity before.
  pub reserve_each-InStock :
      (items : List OrderItemDto) (acc : Reserved) (s : State env) {r : Reserved} {s' : State env}
      → All IsOrderable items
      → reserve_each items acc s ≡ (ok r, s')
      → (products : List Product) × (r.products ≡ acc.products ++ products)
        × (InStock items products → All (HasTwice s) items)
  unfolding reserve_each
  reserve_each-InStock [] acc s orderable h =
      ([], ground (arith, append-nil acc.products), (λ _. tt))
  reserve_each-InStock (item ∷ items) acc s {r} {s'} orderable h =
      elim (run-cases (reserve_one item) s) [
        | inr (x, s₁, failed) ↦ ground arith
        | inl (p, s₁, reserved) ↦
            let (e, known, is_p, covered, saved) =
              reserve_one-ok item s (λ z. omega arith) reserved in
            let (products, split, twice) =
              reserve_each-InStock items (add_reserved acc p item) s₁ {r = r} {s' = s'} orderable.1
                (ground arith) in
            let left : p.stock ≡ e.stock -ℤ item.quantity = ap (λ x. x.stock) is_p in
            (
              p ∷ products,
              split ∙ append_assoc acc.products (p ∷ []) products,
              (λ instock.
                  let bound : item.quantity ≤ℤ e.stock -ℤ item.quantity = rw left at (instock.0) in
                  (
                    (e, known, omega int_laws),
                    All-mono (λ other. HasTwice-before item other s orderable.0 reserved) items
                        (twice instock.1),
                  )),
            )
      ]
