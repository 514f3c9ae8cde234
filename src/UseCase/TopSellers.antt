-- ===== src/UseCase/TopSellers.antt =====
-- src/application/use-cases/products/get-top-sellers.use-case.ts
use hanghae_plus_backend.Prelude.{
  ℕ, zero, suc, ◌-◌, ◌/◌, String, Option, none, some, List, [], ◌∷◌, ◌==◌, if◌then◌else◌,
}
use hanghae_plus_backend.Prelude.Int.{ℤ, pos, negsuc, ◌+ℤ◌, ltb_ℤ}
use hanghae_plus_backend.App.{Action, pure, gets, catch, ◌>>=◌, ◌>>◌}
use hanghae_plus_backend.Database.Env.{Env}
use hanghae_plus_backend.Database.Redis.{ranking_day, ranking_3d}
use hanghae_plus_backend.Domain.Product.{Product}
use hanghae_plus_backend.Service.Products as Products
use hanghae_plus_backend.Service.RedisCall.{zscore, zadd, expire, redis_read, redis_write}

pub record TopSellerResponseDto : Type 0 where
  pub id : ℕ
  pub name : String
  pub price : ℤ

-- `sort((a, b) => b.score - a.score)`, which keeps the order of equal scores.
abbrev pub insert : ℕ × ℤ → List (ℕ × ℤ) → List (ℕ × ℤ)
insert a [] = a ∷ []
insert a (b ∷ more) = let rest = insert a more in if ltb_ℤ a.1 b.1 then b ∷ rest else a ∷ b ∷ more

abbrev pub sort : List (ℕ × ℤ) → List (ℕ × ℤ)
sort [] = []
sort (a ∷ more) = insert a (sort more)

-- `slice(0, n)`
abbrev pub first {ℓ} : {A : Type ℓ} → ℕ → List A → List A
first zero xs = []
first (suc n) [] = []
first (suc n) (x ∷ xs) = x ∷ first n xs

-- `productMap.get(id)`, where a later product with an identifier replaces an earlier one.
abbrev pub product_of : ℕ → List Product → Option Product
product_of id [] = none
product_of id (p ∷ products) = elim (product_of id products) [
  | some q ↦ some q
  | none ↦ if p.id == id then some p else none
]

abbrev pub top_seller : Product → TopSellerResponseDto
top_seller p = record { id = p.id; name = p.name; price = p.price }

-- The products of the ranking that are known, in its order.
abbrev pub known : List Product → List (ℕ × ℤ) → List TopSellerResponseDto
known products [] = []
known products (a ∷ more) = elim (product_of a.0 products) [
  | none ↦ known products more
  | some p ↦ top_seller p ∷ known products more
]

-- `currentScore || 0`
abbrev pub or_zero : Option ℤ → ℤ
or_zero none = pos 0
or_zero (some x) = x

module _ {env : Env} where
  -- One product of one day, added to the ranking of three days.
  unfoldable pub add_to_ranking : ℕ × ℤ → Action env (Unit {0})
  add_to_ranking (product_id, daily_score) = zscore ranking_3d product_id >>= λ current.
      zadd ranking_3d (or_zero current +ℤ daily_score) product_id

  unfoldable pub add_each : List (ℕ × ℤ) → Action env (Unit {0})
  add_each [] = pure tt
  add_each (entry ∷ entries) = add_to_ranking entry >> add_each entries

  unfoldable pub add_day : ℕ → Action env (Unit {0})
  add_day day =
      redis_read (env.redis.zrange (ranking_day day) (pos 0) (negsuc 0)) >>= λ daily_rankings.
      add_each daily_rankings

  -- Today and the two days before, as numbers of days since 1970.
  unfoldable pub add_days : ℕ → Action env (Unit {0})
  add_days today =
      add_day today >> (add_day (today - 1) >> (add_day (today - 2) >> expire ranking_3d 259200))

  -- A failure is logged only.
  unfoldable pub recalculate_overall_ranking : Action env (Unit {0})
  recalculate_overall_ranking =
      catch (gets (λ s. s.now / 86400000) >>= λ today. add_days today) (λ _. pure tt)

  -- At midnight; a failure is logged only.
  unfoldable pub cleanup_old_rankings : Action env (Unit {0})
  cleanup_old_rankings =
      catch
        (gets (λ s. s.now / 86400000) >>= λ today.
          redis_write (env.redis.del (ranking_day (today - 3))) >> recalculate_overall_ranking)
        (λ _. pure tt)

  unfoldable pub top_of : List (ℕ × ℤ) → Action env (List TopSellerResponseDto)
  top_of [] = pure []
  top_of (entry ∷ entries) =
      Products.get_products >>= λ products. pure (known products (first 5 (sort (entry ∷ entries))))

  -- An error is logged and answered by an empty list.
  unfoldable pub execute : Action env (List TopSellerResponseDto)
  execute =
      catch
        (redis_read (env.redis.zrange ranking_3d (pos 0) (negsuc 0)) >>= λ all_products.
          top_of all_products)
        (λ _. pure [])
