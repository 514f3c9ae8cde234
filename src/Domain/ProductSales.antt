-- ===== src/Domain/ProductSales.antt =====
-- src/domain/entities/product-sales-aggregation.entity.ts
use hanghae_plus_backend.Prelude.{ℕ}
use hanghae_plus_backend.Prelude.Int.{ℤ}

pub record ProductSalesAggregation : Type 0 where
  pub id : ℕ
  pub product_id : ℕ
  pub sales_count : ℤ
  pub total_revenue : ℤ
  pub last_updated : ℕ

-- `ProductSalesAggregation.create`, at the time `now`.
abbrev pub create : ℕ → ℕ → ℤ → ℤ → ProductSalesAggregation
create now product_id sales_count total_revenue = record {
  id = 0;
  product_id = product_id;
  sales_count = sales_count;
  total_revenue = total_revenue;
  last_updated = now;
}

unfoldable pub update_sales : ℕ → ℤ → ℤ → ProductSalesAggregation → ProductSalesAggregation
update_sales now sales_count total_revenue sales = record sales {
  sales_count = sales_count;
  total_revenue = total_revenue;
  last_updated = now;
}
