-- ===== src/Tests/Caches.antt =====
-- The theorems on the caches and on the rankings, in the shop with a mug that is cached.
use mathlib.Core.List.{Perm}
use hanghae_plus_backend.Prelude.{
  ℕ, ◌≡◌, ◌⊎◌, ◌≤◌, refl, All, length, none, some, List, [], ◌∷◌, ◌++◌, arith, ◌==◌, ◌&&◌,
  if◌then◌else◌,
}
use hanghae_plus_backend.Prelude.Int.{ℤ, pos, ◌+ℤ◌, ◌-ℤ◌, ◌*ℤ◌}
use hanghae_plus_backend.App.{State}
use hanghae_plus_backend.Database.Entity.{UserEntity}
use hanghae_plus_backend.Database.Redis.{ranking_3d, ranking_day, same_key}
use hanghae_plus_backend.Dto.{ProductResponseDto}
use hanghae_plus_backend.Failure.{ok, err, missing, user_missing}
use hanghae_plus_backend.Repository.Contract.User.{user}
use hanghae_plus_backend.Service.RedisCall.{zscore, zadd, expire, redis_read, redis_write}
use hanghae_plus_backend.Service.Users.{charge_points}
use hanghae_plus_backend.UseCase.Queries.{get_user_points, get_product_detail}
use hanghae_plus_backend.UseCase.TopSellers.{
  TopSellerResponseDto, add_to_ranking, add_each, add_day, add_days, execute,
}
use hanghae_plus_backend.Service.Products.{
  reserve_each, reserve_one, reserve_product, nothing_reserved,
}
use hanghae_plus_backend.Validation.Product.{validate_product_exists, validate_product_stock}
use hanghae_plus_backend.Domain.Product.{decrease_stock}
use hanghae_plus_backend.Repository.Product as Rows
use hanghae_plus_backend.Repository.Contract.Product.{product}
use hanghae_plus_backend.UseCase.CreateOrder.{event_items}
use hanghae_plus_backend.Reservation.Ordered.{ordered, less}
use hanghae_plus_backend.Caching.Points.{IsCoherent, get_user_points-IsCoherent}
use hanghae_plus_backend.Caching.Changed.{charge_points-IsCoherent}
use hanghae_plus_backend.Caching.Products.{get_product_detail-reserve_each}
use hanghae_plus_backend.Ranking.Sorted.{Below, IsDescending}
use hanghae_plus_backend.Ranking.Top.{all_products, Listed, execute-IsDescending}
use hanghae_plus_backend.Ranking.Days.{sales, total, add_days-total}
use hanghae_plus_backend.Tests.Stored.{nothing_stored}
use hanghae_plus_backend.Tests.Memory.{in_memory}
use hanghae_plus_backend.Tests.Shop.{shop, two_mugs}
use hanghae_plus_backend.Tests.Runs.{ran, kim_with, charge_5000, charged, two_reserved}

shop-IsCoherent : IsCoherent shop
shop-IsCoherent = record { same = λ i points h. ground arith }

get_user_points-IsCoherent_example :
    ((u : UserEntity) × (s₁ : State in_memory) × (user shop 1 ≡ some u)
      × (get_user_points 1 shop ≡ (ok (record { user_id = 1; balance = u.points }), s₁))
      × (s₁ ≡ record shop { redis = s₁.redis })
      × IsCoherent s₁)
    ⊎ ((user shop 1 ≡ none) × (get_user_points 1 shop ≡ (err (missing user_missing), shop)))
get_user_points-IsCoherent_example = get_user_points-IsCoherent 1 shop shop-IsCoherent

charge_points-IsCoherent_example :
    IsCoherent (charge_points 1 charge_5000 shop).1
    × ((get_user_points 1 (charge_points 1 charge_5000 shop).1).0
        ≡ ok (record { user_id = 1; balance = pos 105000 }))
charge_points-IsCoherent_example =
    charge_points-IsCoherent 1 charge_5000 shop {w = kim_with (pos 105000)} (λ r h. ground arith)
      shop-IsCoherent (ran (charge_points 1 charge_5000) shop charged)

abbrev cached_mug : ProductResponseDto
cached_mug = record { id = 1; name = "Mug"; price = pos 5000; stock = pos 10; category = "생활용품" }

-- The shop after the mug was looked at.
abbrev looked : State in_memory
looked = record shop {
  redis = record nothing_stored { product = λ j. if 1 == j then some cached_mug else none };
}

reserves : (reserve_each two_mugs.items nothing_reserved looked).0 ≡ ok two_reserved
unfolding reserve_each reserve_one reserve_product validate_product_exists validate_product_stock
    decrease_stock Rows.find_by_id Rows.save ◌+ℤ◌ ◌-ℤ◌ ◌*ℤ◌
reserves = refl

abbrev held : State in_memory
held = (reserve_each two_mugs.items nothing_reserved looked).1

get_product_detail-reserve_each_example :
    (get_product_detail 1 looked ≡ (ok cached_mug, looked))
    × (get_product_detail 1 held ≡ (ok cached_mug, held))
    × (product held 1 ≡ less (ordered 1 (event_items two_mugs.items)) (product looked 1))
get_product_detail-reserve_each_example =
    get_product_detail-reserve_each 1 cached_mug two_mugs.items nothing_reserved looked refl
      ((omega arith, omega arith), tt)
      (ran (reserve_each two_mugs.items nothing_reserved) looked reserves)

-- Mugs and something that the table does not have.
abbrev sold : List (ℕ × ℤ)
sold = (1, pos 3) ∷ (2, pos 9) ∷ []

abbrev ranked : State in_memory
ranked = record shop {
  redis = record nothing_stored { ranges = λ k. if same_key ranking_3d k then sold else [] };
}

execute-IsDescending_example :
    (es best rest : List (ℕ × ℤ)) × (top : List TopSellerResponseDto) × (execute ranked
      ≡ (ok top, ranked))
    × ((some sold ≡ some es) ⊎ ((some sold ≡ none) × (es ≡ [])))
    × Perm (best ++ rest) es
    × (length best ≤ 5)
    × ((length best ≡ 5) ⊎ (rest ≡ []))
    × IsDescending (best ++ rest)
    × All (λ a. All (Below a) rest) best
    × Listed (all_products ranked) best top
execute-IsDescending_example = execute-IsDescending ranked

-- A day of sales, which is in the ranking of three days already.
abbrev counted : State in_memory
counted = record shop {
  redis = record nothing_stored {
    scores = λ k m. if same_key ranking_3d k && (m == 1) then some (pos 3) else none;
    ranges = λ k. if same_key (ranking_day 19675) k then (1, pos 3) ∷ [] else [];
  };
}

adds : (add_days 19675 counted).0 ≡ ok tt
unfolding add_days add_day add_each add_to_ranking zscore zadd expire redis_read redis_write ◌+ℤ◌
adds = refl

add_days-total_example :
    total 1 (add_days 19675 counted).1
    ≡ total 1 counted +ℤ (sales 1 ((1, pos 3) ∷ []) +ℤ (sales 1 [] +ℤ sales 1 []))
add_days-total_example =
    add_days-total 19675 ((1, pos 3) ∷ []) [] [] counted refl refl refl
      (ran (add_days 19675) counted adds) 1
