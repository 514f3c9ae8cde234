-- ===== src/UseCase/ProcessPayment.antt =====
-- src/application/use-cases/payments/process-payment.use-case.ts
use hanghae_plus_backend.Prelude.{
  ℕ, Bool, true, false, Option, none, some, List, map, if◌then◌else◌,
}
use hanghae_plus_backend.App.{Action, pure, raise, lift, gets, catch, ◌>>=◌, ◌>>◌}
use hanghae_plus_backend.Database.Env.{Env}
use hanghae_plus_backend.Failure.{
  Exception, Kind, plain_error, bad_request, not_found, internal_server_error, unauthorized,
  conflict, plain, bad, missing, includes, order_missing, user_missing, order_processed,
  insufficient_points, zero_payment, final_over_total, payment_processed, use_too_small,
}
use hanghae_plus_backend.Dto.{ProcessPaymentDto}
use hanghae_plus_backend.Domain.Order.{Order, OrderItem}
use hanghae_plus_backend.Domain.Payment.{Payment}
use hanghae_plus_backend.Event.{Event, payment_completed, payment_failed, EventItem}
use hanghae_plus_backend.EventBus.{publish}
use hanghae_plus_backend.Validation.Payment.{validate_order_exists, validate_payment_possible}
use hanghae_plus_backend.Service.Payments
use hanghae_plus_backend.Service.Users
use hanghae_plus_backend.Service.Orders

abbrev pub order_event_items : List OrderItem → List EventItem
order_event_items = map (λ item. record { product_id = item.product_id; quantity = item.quantity })

abbrev pub completed_event : ℕ → Order → Event
completed_event now o = payment_completed (record {
  order_id = o.id;
  user_id = o.user_id;
  products = o.items;
  total_amount = o.total_amount;
  discount_amount = o.discount_amount;
  final_amount = o.final_amount;
  coupon_used = o.coupon_used;
  paid_at = now;
  status = "PAID";
})

abbrev pub payment_failed_event : ℕ → Order → Exception → Event
payment_failed_event now o e = payment_failed (record {
  order_id = o.id;
  user_id = o.user_id;
  items = order_event_items o.items;
  coupon_id = o.coupon_id;
  failure_reason = some e.message;
  failed_at = now;
  is_timeout = false;
})

-- The catch block's conversion to an HTTP exception.
abbrev pub is_http : Kind → Bool
is_http not_found = true
is_http bad_request = true
is_http plain_error = false
is_http internal_server_error = false
is_http unauthorized = false
is_http conflict = false

abbrev pub http_error : Exception → Exception
http_error e =
    if includes e.message order_missing
    then missing e.message
    else if includes e.message user_missing
    then missing e.message
    else if includes e.message order_processed
    then bad e.message
    else if includes e.message insufficient_points
    then bad e.message
    else if includes e.message zero_payment
    then bad e.message
    else if includes e.message final_over_total
    then bad e.message
    else if includes e.message payment_processed
    then bad e.message
    else if includes e.message use_too_small
    then bad e.message
    else if is_http e.kind
    then e
    else bad e.message

abbrev pub payment_data : Order → Payments.PaymentData
payment_data o = record {
  order_id = o.id;
  user_id = o.user_id;
  total_amount = o.total_amount;
  discount_amount = o.discount_amount;
  final_amount = o.final_amount;
  coupon_used = o.coupon_used;
}

module _ {env : Env} where
  -- Steps 2 to 7, once the order is found. The response is the payment that was saved.
  unfoldable pub pay : Order → Action env Payment
  pay order = do
    lift (validate_order_exists (some order))
    user ← Users.validate_user order.user_id
    lift (validate_payment_possible order user)
    payment ← Payments.process_payment (payment_data order)
    Users.use_points order.user_id order.final_amount
    Orders.update_order_status order.id "PAID"
    now ← gets (λ s. s.now)
    publish (completed_event now order)
    pure payment

  unfoldable pub fail_payment : Order → Exception → Action env Payment
  fail_payment order e = do
    now ← gets (λ s. s.now)
    publish (payment_failed_event now order e)
    raise (http_error e)

  unfoldable pub pay_found : Option Order → Action env Payment
  pay_found none = raise (http_error (plain order_missing))
  pay_found (some order) = catch (pay order) (fail_payment order)

  unfoldable pub execute : ProcessPaymentDto → Action env Payment
  execute dto = Orders.find_by_id dto.order_id >>= pay_found
