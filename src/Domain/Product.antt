-- ===== src/Domain/Product.antt =====
-- src/domain/entities/product.entity.ts
use hanghae_plus_backend.Prelude.{ℕ, ◌+◌, String, Bool, not, if◌then◌else◌}
use hanghae_plus_backend.Prelude.Int.{ℤ, pos, ◌+ℤ◌, ◌-ℤ◌, ltb_ℤ, leb_ℤ}
use hanghae_plus_backend.Failure.{Result, ok, err, plain, negative_quantity, insufficient_stock}

pub record Product : Type 0 where
  pub id : ℕ
  pub name : String
  pub price : ℤ
  pub stock : ℤ
  pub category : String
  pub version : ℕ

unfoldable pub has_stock : Product → ℤ → Bool
has_stock p quantity = leb_ℤ quantity p.stock

unfoldable pub decrease_stock : Product → ℤ → Result Product
unfolding has_stock
decrease_stock p quantity =
    if ltb_ℤ quantity (pos 0)
    then err (plain negative_quantity)
    else if not (has_stock p quantity)
    then err (plain insufficient_stock)
    else ok (record p { stock = p.stock -ℤ quantity })

unfoldable pub increase_stock : Product → ℤ → Product
increase_stock p quantity = record p { stock = p.stock +ℤ quantity }

unfoldable pub increment_version : Product → Product
increment_version p = record p { version = p.version + 1 }
