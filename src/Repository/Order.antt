-- ===== src/Repository/Order.antt =====
-- src/infrastructure/repositories/order.repository.ts
use mathlib.Core.Option
use hanghae_plus_backend.Prelude.{ℕ, Option, none, some, List, map, ◌==◌, if◌then◌else◌}
use hanghae_plus_backend.App.{Action, pure, raise, gets, ◌>>=◌}
use hanghae_plus_backend.Database.Env.{Env}
use hanghae_plus_backend.Failure.{ok, plain, order_missing}
use hanghae_plus_backend.Domain.Order.{Order}
use hanghae_plus_backend.Database.Entity.{OrderEntity}
use hanghae_plus_backend.Repository.Row.{commit}

-- `new Order(…)` of a row; the version is not taken over.
abbrev pub to_order : OrderEntity → Order
to_order e = record {
  id = e.id;
  user_id = e.user_id;
  items = e.items;
  total_amount = e.total_amount;
  discount_amount = e.discount_amount;
  final_amount = e.final_amount;
  coupon_id = e.coupon_id;
  coupon_used = e.coupon_used;
  status = e.status;
  version = 0;
}

-- The columns of an order, under the key `id` and for the user `user_id`.
abbrev pub of_order : ℕ → ℕ → Order → OrderEntity
of_order id user_id o = record {
  id = id;
  user_id = user_id;
  items = o.items;
  total_amount = o.total_amount;
  discount_amount = o.discount_amount;
  final_amount = o.final_amount;
  coupon_id = o.coupon_id;
  coupon_used = o.coupon_used;
  status = o.status;
}

module _ {env : Env} where
  unfoldable pub find_by_id : ℕ → Action env (Option Order)
  find_by_id id s = (ok (Option.map to_order (env.orders.find_one s.orders id)), s)

  unfoldable pub find_by_user_id : ℕ → Action env (List Order)
  find_by_user_id user_id s =
      (ok (map to_order (env.orders.find s.orders (λ e. e.user_id == user_id))), s)

  save_entity : OrderEntity → Action env Order
  save_entity e = do
    saved ← (λ s. commit (env.orders.save s.orders e) (λ rows. record s { orders = rows }) s)
    pure (to_order saved)

  -- An existing row keeps its user.
  update_entity : Order → Option OrderEntity → Action env Order
  unfolding save_entity
  update_entity o none = raise (plain order_missing)
  update_entity o (some entity) = save_entity (of_order entity.id entity.user_id o)

  unfoldable pub save : Order → Action env Order
  unfolding update_entity save_entity
  save o =
      if o.id == 0
      then save_entity (of_order 0 o.user_id o)
      else (gets (λ s. env.orders.find_one s.orders o.id) >>= update_entity o)
