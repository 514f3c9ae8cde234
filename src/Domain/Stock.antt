-- ===== src/Domain/Stock.antt =====
-- What the stock methods do (src/domain/entities/product.entity.ts).
use hanghae_plus_backend.Prelude.{◌≡◌, ◌↔◌, arith}
use hanghae_plus_backend.Prelude.Int.{ℤ, pos, ◌+ℤ◌, ◌-ℤ◌, ◌≤ℤ◌}
use hanghae_plus_backend.Failure.{ok}
use hanghae_plus_backend.Domain.Product.{Product, decrease_stock, increase_stock}

-- A decrease succeeds exactly when the quantity is not negative and in stock, and then takes it off.
pub decrease_stock-eq-ok :
    (p : Product) (quantity : ℤ)
    → (decrease_stock p quantity ≡ ok (record p { stock = p.stock -ℤ quantity }))
      ↔ ((pos 0 ≤ℤ quantity) × (quantity ≤ℤ p.stock))
unfolding decrease_stock
decrease_stock-eq-ok p quantity = ground arith

-- The result of a successful decrease.
pub decrease_stock_result :
    (p : Product) (quantity : ℤ) {q : Product}
    → decrease_stock p quantity ≡ ok q
    → (q ≡ record p { stock = p.stock -ℤ quantity }) × (pos 0 ≤ℤ quantity) × (quantity ≤ℤ p.stock)
unfolding decrease_stock
decrease_stock_result p quantity h = ground arith

-- A successful decrease leaves a stock that is not negative, and the increase that compensates it
-- restores the product.
pub increase_stock-decrease_stock :
    (p : Product) (quantity : ℤ) {q : Product}
    → decrease_stock p quantity ≡ ok q
    → (pos 0 ≤ℤ q.stock) × (increase_stock q quantity ≡ p)
unfolding decrease_stock increase_stock ◌+ℤ◌ ◌-ℤ◌
increase_stock-decrease_stock p quantity h = ground arith
