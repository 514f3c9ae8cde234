-- ===== src/Repository/Product.antt =====
-- src/infrastructure/repositories/product.repository.ts
use mathlib.Core.Option
use hanghae_plus_backend.Prelude.{ℕ, true, Option, List, map}
use hanghae_plus_backend.App.{Action, pure, ◌>>=◌}
use hanghae_plus_backend.Database.Env.{Env}
use hanghae_plus_backend.Failure.{ok}
use hanghae_plus_backend.Domain.Product.{Product}
use hanghae_plus_backend.Database.Entity.{ProductEntity}
use hanghae_plus_backend.Repository.Row.{commit}

-- `new Product(…)` of a row; the version is not taken over.
abbrev pub to_product : ProductEntity → Product
to_product e = record {
  id = e.id;
  name = e.name;
  price = e.price;
  stock = e.stock;
  category = e.category;
  version = 0;
}

-- `create({ … })`
abbrev pub of_product : Product → ProductEntity
of_product p = record {
  id = p.id;
  name = p.name;
  price = p.price;
  stock = p.stock;
  category = p.category;
}

module _ {env : Env} where
  unfoldable pub find_by_id : ℕ → Action env (Option Product)
  find_by_id id s = (ok (Option.map to_product (env.products.find_one s.products id)), s)

  unfoldable pub find_all : Action env (List Product)
  find_all s = (ok (map to_product (env.products.find s.products (λ _. true))), s)

  unfoldable pub save : Product → Action env Product
  save p = do
    saved ← (λ s.
        commit (env.products.save s.products (of_product p)) (λ rows. record s { products = rows })
          s)
    pure (to_product saved)
