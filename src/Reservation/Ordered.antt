-- ===== src/Reservation/Ordered.antt =====
-- The quantities that a list of items asks for, product by product, and rows shifted by them.
use hanghae_plus_backend.Dto.{OrderItemDto}
use hanghae_plus_backend.UseCase.CreateOrder.{event_items}
use hanghae_plus_backend.Prelude.{
  ◌++◌, arith, ℕ, ◌≡◌, refl, Option, none, some, List, [], ◌∷◌, ◌==◌, if◌then◌else◌,
}
use hanghae_plus_backend.Prelude.Int.{ℤ, pos, ◌+ℤ◌, ◌-ℤ◌, int_laws}
use hanghae_plus_backend.Event.{EventItem}
use hanghae_plus_backend.Database.Entity.{ProductEntity}

-- The pieces of product `i` among the items.
abbrev pub ordered : ℕ → List EventItem → ℤ
ordered i [] = pos 0
ordered i (item ∷ items) =
    if item.product_id == i then item.quantity +ℤ ordered i items else ordered i items

-- A row with a stock that differs by an amount, if there is a row.
abbrev pub less : ℤ → Option ProductEntity → Option ProductEntity
less n none = none
less n (some e) = some (record e { stock = e.stock -ℤ n })

abbrev pub more : ℤ → Option ProductEntity → Option ProductEntity
more n none = none
more n (some e) = some (record e { stock = e.stock +ℤ n })

pub less_zero : (r : Option ProductEntity) → less (pos 0) r ≡ r
less_zero none = refl
less_zero (some e) = let same : e.stock -ℤ pos 0 ≡ e.stock = omega int_laws in cc same

pub more_zero : (r : Option ProductEntity) → more (pos 0) r ≡ r
more_zero none = refl
more_zero (some e) = let same : e.stock +ℤ pos 0 ≡ e.stock = omega int_laws in cc same

pub less-less : (a b : ℤ) (r : Option ProductEntity) → less b (less a r) ≡ less (a +ℤ b) r
less-less a b none = refl
less-less a b (some e) =
    let same : e.stock -ℤ a -ℤ b ≡ e.stock -ℤ (a +ℤ b) = omega int_laws in cc same

pub more-more : (a b : ℤ) (r : Option ProductEntity) → more b (more a r) ≡ more (a +ℤ b) r
more-more a b none = refl
more-more a b (some e) =
    let same : e.stock +ℤ a +ℤ b ≡ e.stock +ℤ (a +ℤ b) = omega int_laws in cc same

pub more-less : (a : ℤ) (r : Option ProductEntity) → more a (less a r) ≡ r
more-less a none = refl
more-less a (some e) = let same : e.stock -ℤ a +ℤ a ≡ e.stock = omega int_laws in cc same

pub ordered-append :
    (i : ℕ) (xs ys : List OrderItemDto)
    → ordered i (event_items (xs ++ ys)) ≡ ordered i (event_items xs) +ℤ ordered i (event_items ys)
ordered-append i [] ys = omega int_laws
ordered-append i (x ∷ xs) ys =
    let regroup : x.quantity +ℤ (ordered i (event_items xs) +ℤ ordered i (event_items ys))
        ≡ x.quantity +ℤ ordered i (event_items xs) +ℤ ordered i (event_items ys) =
      omega int_laws in
    ground (arith, ordered-append i xs ys, regroup)

-- Taking off a part and putting back the whole leaves the other part on top.
pub more-less_part : (a b : ℤ) (r : Option ProductEntity) → more (a +ℤ b) (less a r) ≡ more b r
more-less_part a b none = refl
more-less_part a b (some e) =
    let same : e.stock -ℤ a +ℤ (a +ℤ b) ≡ e.stock +ℤ b = omega int_laws in cc same
