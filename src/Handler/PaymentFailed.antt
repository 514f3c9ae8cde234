-- ===== src/Handler/PaymentFailed.antt =====
-- src/infrastructure/event-handlers/payment-failed.handler.ts
use hanghae_plus_backend.Prelude.{if◌then◌else◌}
use hanghae_plus_backend.App.{Action, pure, raise, catch}
use hanghae_plus_backend.Database.Env.{Env}
use hanghae_plus_backend.Event.{PaymentFailedEvent}
use hanghae_plus_backend.Handler.Restore.{compensate}

module _ {env : Env} where
  -- Only a timeout is compensated, and only then is a failure thrown on.
  unfoldable pub handle : PaymentFailedEvent → Action env (Unit {0})
  handle event =
      catch (if event.is_timeout then compensate event.items event.coupon_id else pure tt)
        (λ e. if event.is_timeout then raise e else pure tt)
