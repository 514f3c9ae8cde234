-- ===== src/Repository/Contract/Product.antt =====
-- src/infrastructure/repositories/product.repository.ts: what a `save` does.
use hanghae_plus_backend.Prelude.{ℕ, ◌≡◌, ◌≢◌, inl, inr, Option, some, arith, ◌==◌, if◌then◌else◌}
use hanghae_plus_backend.App.{State}
use hanghae_plus_backend.Database.Env.{Env}
use hanghae_plus_backend.Failure.{ok, err, Exception, Result-cases}
use hanghae_plus_backend.Domain.Product.{Product}
use hanghae_plus_backend.Database.Entity.{ProductEntity}
use hanghae_plus_backend.Repository.Product.{save, of_product}

module _ {env : Env} where
  -- The row of a product.
  abbrev pub product : State env → ℕ → Option ProductEntity
  product s i = env.products.find_one s.products i

  -- A save of a product with an identifier puts its columns into its row and touches nothing else.
  pub record Saved (p : Product) (s s' : State env) : Type 0 where
    pub row : (i : ℕ) → product s' i ≡ (if p.id == i then some (of_product p) else product s i)
    pub frame : s' ≡ record s { products = s'.products }

  pub save-Saved :
      (p : Product) (s : State env) {q : Product} {s' : State env}
      → p.id ≢ 0
      → save p s ≡ (ok q, s')
      → Saved p s s'
  unfolding save
  save-Saved p s {q} {s'} known h =
      elim (Result-cases (env.products.save s.products (of_product p))) [
        | inl (e, failed) ↦ ground arith
        | inr ((e, rows), saved) ↦ record {
          row = λ i. ground (
            arith,
            env.products.save_update s.products (of_product p) saved known,
            env.products.find_one-save s.products (of_product p) saved i,
          );
          frame = ground arith;
        }
      ]

  pub save-err :
      (p : Product) (s : State env) {e : Exception} {s' : State env}
      → save p s ≡ (err e, s')
      → s' ≡ s
  unfolding save
  save-err p s h = ground arith
