-- ===== src/Handler/OrderCreated.antt =====
-- src/infrastructure/event-handlers/order-created.handler.ts, and the firing of its timer.
use hanghae_plus_backend.Prelude.{ℕ, ◌+◌, true, none, [], ◌∷◌, ◌++◌}
use hanghae_plus_backend.App.{Action, modify}
use hanghae_plus_backend.Database.Env.{Env}
use hanghae_plus_backend.Event.{Event, payment_failed, OrderCreatedEvent}
use hanghae_plus_backend.UseCase.ProcessPayment.{order_event_items}

-- What the timer publishes, ten minutes after `now`.
abbrev pub timeout_event : ℕ → OrderCreatedEvent → Event
timeout_event now event = payment_failed (record {
  order_id = event.order_id;
  user_id = event.user_id;
  items = order_event_items event.items;
  coupon_id = event.coupon_id;
  failure_reason = none;
  failed_at = now + 600000;
  is_timeout = true;
})

module _ {env : Env} where
  unfoldable pub handle : OrderCreatedEvent → Action env (Unit {0})
  handle event =
      modify λ s. record s { timers = s.timers ++ (s.now + 600000, timeout_event s.now event) ∷ [] }
