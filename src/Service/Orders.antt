-- ===== src/Service/Orders.antt =====
-- src/infrastructure/services/order.service.ts
use hanghae_plus_backend.Prelude.{ℕ, String, Bool, Option, none, some, List, if◌then◌else◌}
use hanghae_plus_backend.Prelude.Int.{ℤ}
use hanghae_plus_backend.App.{Action, raise, catch, ◌>>=◌}
use hanghae_plus_backend.Database.Env.{Env}
use hanghae_plus_backend.Failure.{
  missing, bad, internal, order_missing, invalid_order_data, zero_total, negative_final,
  server_error, includes, Exception,
}
use hanghae_plus_backend.Domain.Order.{Order, OrderItem, update_status}
use hanghae_plus_backend.Repository.Order as Rows

pub record OrderData : Type 0 where
  pub user_id : ℕ
  pub order_items : List OrderItem
  pub total_amount : ℤ
  pub discount_amount : ℤ
  pub final_amount : ℤ
  pub coupon_id : Option ℕ
  pub coupon_used : Bool

-- `new Order(0, …, 'PENDING')`
abbrev pub new_order : OrderData → Order
new_order d = record {
  id = 0;
  user_id = d.user_id;
  items = d.order_items;
  total_amount = d.total_amount;
  discount_amount = d.discount_amount;
  final_amount = d.final_amount;
  coupon_id = d.coupon_id;
  coupon_used = d.coupon_used;
  status = "PENDING";
  version = 0;
}

abbrev pub create_error : Exception → Exception
create_error e =
    if includes e.message invalid_order_data
    then bad e.message
    else if includes e.message zero_total
    then bad e.message
    else if includes e.message negative_final
    then bad e.message
    else internal server_error

module _ {env : Env} where
  unfoldable pub create_order : OrderData → Action env Order
  create_order d = catch (Rows.save (new_order d)) (λ e. raise (create_error e))

  unfoldable pub find_by_id : ℕ → Action env (Option Order)
  find_by_id order_id = Rows.find_by_id order_id

  unfoldable pub update_found : String → Option Order → Action env Order
  update_found status none = raise (missing order_missing)
  update_found status (some o) = Rows.save (update_status o status)

  unfoldable pub update_order_status : ℕ → String → Action env Order
  update_order_status order_id status = Rows.find_by_id order_id >>= update_found status

  unfoldable pub find_by_user_id : ℕ → Action env (List Order)
  find_by_user_id user_id = Rows.find_by_user_id user_id
