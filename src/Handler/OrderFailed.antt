-- ===== src/Handler/OrderFailed.antt =====
-- src/infrastructure/event-handlers/order-failed.handler.ts. Its catch block logs and throws again.
use hanghae_plus_backend.App.{Action, raise, catch}
use hanghae_plus_backend.Database.Env.{Env}
use hanghae_plus_backend.Event.{OrderFailedEvent}
use hanghae_plus_backend.Handler.Restore.{compensate}

module _ {env : Env} where
  unfoldable pub handle : OrderFailedEvent → Action env (Unit {0})
  handle event = catch (compensate event.items event.coupon_id) (λ e. raise e)
