-- ===== src/UseCase/Queries.antt =====
-- The reads through the caches: src/application/use-cases/users/get-user-points.use-case.ts and
-- get-product-detail.use-case.ts and get-products.use-case.ts of src/application/use-cases/products.
use hanghae_plus_backend.Prelude.{
  ℕ, Bool, true, false, Option, none, some, List, map, if◌then◌else◌,
}
use hanghae_plus_backend.App.{Action, pure, raise, catch, ◌>>=◌, ◌>>◌}
use hanghae_plus_backend.Database.Env.{Env}
use hanghae_plus_backend.Dto.{ProductResponseDto}
use hanghae_plus_backend.Failure.{
  Kind, plain_error, bad_request, not_found, internal_server_error, unauthorized, conflict, plain,
  missing, points_unreadable, product_unreadable, products_unreadable, product_absent,
}
use hanghae_plus_backend.Domain.Product.{Product}
use hanghae_plus_backend.Service.Products as Products
use hanghae_plus_backend.Service.Users as Users
use hanghae_plus_backend.Service.RedisCall.{redis_read, redis_write}
use hanghae_plus_backend.UseCase.Points.{PointsResponseDto}

-- `error instanceof NotFoundException`
abbrev pub is_not_found : Kind → Bool
is_not_found plain_error = false
is_not_found bad_request = false
is_not_found not_found = true
is_not_found internal_server_error = false
is_not_found unauthorized = false
is_not_found conflict = false

abbrev pub product_response : Product → ProductResponseDto
product_response p = record {
  id = p.id;
  name = p.name;
  price = p.price;
  stock = p.stock;
  category = p.category;
}

module _ {env : Env} where
  -- A read of a cache, of which a failure is logged only.
  unfoldable pub cached :
      {A : Type 0} → (env.redis.Store → Option (Option A)) → Action env (Option A)
  cached read = catch (redis_read read) (λ _. pure none)

  -- A write of a cache, of which a failure is logged only.
  unfoldable pub put_in_cache : (env.redis.Store → Option env.redis.Store) → Action env (Unit {0})
  put_in_cache write = catch (redis_write write) (λ _. pure tt)

  unfoldable pub read_user_points : ℕ → Action env PointsResponseDto
  read_user_points user_id =
      catch
        (do
          user ← Users.get_user_points user_id
          put_in_cache (env.redis.set_user_points_cache user_id user.points 300)
          pure (record { user_id = user.id; balance = user.points }))
        (λ e. if is_not_found e.kind then raise e else raise (plain points_unreadable))

  unfoldable pub get_user_points : ℕ → Action env PointsResponseDto
  get_user_points user_id = cached (env.redis.get_user_points_cache user_id) >>= λ cached_points.
      elim cached_points [
        | some points ↦ pure (record { user_id = user_id; balance = points })
        | none ↦ read_user_points user_id
      ]

  unfoldable pub found_product : ℕ → Option Product → Action env ProductResponseDto
  found_product product_id none = raise (missing (product_absent product_id))
  found_product product_id (some p) = do
    put_in_cache (env.redis.set_product_cache product_id (product_response p) 600)
    pure (product_response p)

  unfoldable pub read_product : ℕ → Action env ProductResponseDto
  read_product product_id =
      catch (Products.find_by_id product_id >>= found_product product_id)
        (λ e. if is_not_found e.kind then raise e else raise (plain product_unreadable))

  unfoldable pub get_product_detail : ℕ → Action env ProductResponseDto
  get_product_detail product_id =
      cached (env.redis.get_product_cache product_id) >>= λ cached_product. elim cached_product [
        | some p ↦ pure p
        | none ↦ read_product product_id
      ]

  unfoldable pub read_products : Action env (List ProductResponseDto)
  read_products =
      catch
        (do
          products ← Products.get_products
          put_in_cache (env.redis.set_products_cache (map product_response products) 600)
          pure (map product_response products))
        (λ _. raise (plain products_unreadable))

  unfoldable pub get_products : Action env (List ProductResponseDto)
  get_products = cached env.redis.get_products_cache >>= λ cached_products. elim cached_products [
    | some ps ↦ pure ps
    | none ↦ read_products
  ]
