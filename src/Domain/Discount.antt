-- ===== src/Domain/Discount.antt =====
-- The discount of a coupon, and what a use of the coupon does to it
-- (src/domain/entities/coupon.entity.ts, src/domain/entities/order.entity.ts).
use hanghae_plus_backend.Prelude.{ℕ, ◌*◌, ◌/◌, ◌≤◌, ◌≡◌, ◌⊎◌, refl, false, arith}
use hanghae_plus_backend.Prelude.Int.{ℤ, pos, negsuc, ◌+ℤ◌, ◌*ℤ◌, floor_div, ◌≤ℤ◌, int_laws}
use hanghae_plus_backend.Domain.Coupon.{Coupon, use_coupon, revert_usage, calculate_discount}
use hanghae_plus_backend.Domain.Order.{Order}
use hanghae_plus_backend.Domain.Order

percent-le : (n r : ℕ) → r ≤ 100 → n * r / 100 ≤ n
percent-le n r h = let scaled : n * r ≤ n * 100 = grind arith in omega (arith, scaled)

-- A percentage of a total lies between nothing and the total.
floor_percent_bounds :
    (total rate : ℤ)
    → pos 0 ≤ℤ total
    → pos 1 ≤ℤ rate
    → rate ≤ℤ pos 100
    → (pos 0 ≤ℤ floor_div (total *ℤ rate) 100) × (floor_div (total *ℤ rate) 100 ≤ℤ total)
unfolding floor_div ◌*ℤ◌
floor_percent_bounds (pos n) (pos r) h k l = ground (arith, percent-le n r)
floor_percent_bounds (pos n) (negsuc r) h k l = absurd (omega arith)
floor_percent_bounds (negsuc n) r h k l = absurd (omega arith)

-- On a total that is not negative, a percentage of at most 100 gives a discount between 0 and the
-- total, and so does a fixed amount (rate not positive) that is between 0 and the total.
pub calculate_discount_bounds :
    (now : ℕ) (c : Coupon) (total : ℤ)
    → pos 0 ≤ℤ total
    → c.discount_rate ≤ℤ pos 100
    → (pos 1 ≤ℤ c.discount_rate) ⊎ ((pos 0 ≤ℤ c.discount_amount) × (c.discount_amount ≤ℤ total))
    → (pos 0 ≤ℤ calculate_discount now c total) × (calculate_discount now c total ≤ℤ total)
unfolding calculate_discount
calculate_discount_bounds now c total h k either =
    ground (arith, floor_percent_bounds total c.discount_rate)

-- A use followed by `revertUsage` gives back a coupon that was not used before; in between it gives
-- no discount.
pub revert_usage-use_coupon :
    (now : ℕ) (c : Coupon) (total : ℤ)
    → c.is_used ≡ false
    → (revert_usage (use_coupon c) ≡ c) × (calculate_discount now (use_coupon c) total ≡ pos 0)
unfolding calculate_discount use_coupon revert_usage
revert_usage-use_coupon now c total fresh = (ground arith, ground arith)

-- After `Order.calculateDiscount` the final amount and the discount add up to the total, which is
-- unchanged.
pub Order-final_amount :
    (o : Order) (discount : ℤ)
    → let o' = Order.calculate_discount o discount in
      (o'.final_amount +ℤ o'.discount_amount ≡ o.total_amount) × (o'.total_amount ≡ o.total_amount)
unfolding Order.calculate_discount
Order-final_amount o discount = (omega int_laws, refl)
