-- ===== src/EventBus.antt =====
-- src/common/events/event-bus.ts, and the subscriptions of src/app.module.ts.
use hanghae_plus_backend.Prelude.{
  String, Bool, true, false, Option, none, some, List, [], ◌∷◌, ◌++◌, map, if◌then◌else◌, str_eq,
}
use hanghae_plus_backend.App.{Action, modify, ◌>>◌}
use hanghae_plus_backend.Database.Env.{Env}
use hanghae_plus_backend.App.{
  Handler, order_created_handler, order_failed_handler, payment_completed_handler,
  payment_failed_handler,
}
use hanghae_plus_backend.Event.{Event, class_name}

-- What `subscribe` may be given: a class, or a text.
pub data EventType : Type 0 where
  class_ref : String → EventType
  text : String → EventType

-- `eventType.name`: a class has a name, and a text has no such property.
abbrev pub name_of : EventType → Option String
name_of (class_ref name) = some name
name_of (text _) = none

-- Whether two keys of the map are the same, `undefined` included.
abbrev pub same_name : Option String → Option String → Bool
same_name none none = true
same_name none (some _) = false
same_name (some _) none = false
same_name (some a) (some b) = str_eq a b

abbrev pub Handlers : Type 0
Handlers = List (Option String × List Handler)

-- `this.handlers.get(name) || []`
unfoldable pub get_handlers : Option String → Handlers → List Handler
get_handlers name [] = []
get_handlers name ((key, hs) ∷ rest) = if same_name name key then hs else get_handlers name rest

-- `if (!has) set(name, []); get(name).push(handler)`
unfoldable pub add_handler : Option String → Handler → Handlers → Handlers
add_handler name h [] = (name, h ∷ []) ∷ []
add_handler name h ((key, hs) ∷ rest) =
    if same_name name key then (key, hs ++ h ∷ []) ∷ rest else (key, hs) ∷ add_handler name h rest

module _ {env : Env} where
  unfoldable pub subscribe : EventType → Handler → Action env (Unit {0})
  subscribe event_type h =
      modify (λ s. record s { handlers = add_handler (name_of event_type) h s.handlers })

  -- Each handler of the event's class is queued by `setImmediate`.
  unfoldable pub publish : Event → Action env (Unit {0})
  publish e = modify λ s. record s {
    queued = s.queued ++ map (λ h. (h, e)) (get_handlers (some (class_name e)) s.handlers);
    published = s.published ++ e ∷ [];
  }

  -- `AppModule.onModuleInit`: the event types are given as texts.
  unfoldable pub on_module_init : Action env (Unit {0})
  on_module_init = do
    subscribe (text "OrderCreatedEvent") order_created_handler
    subscribe (text "OrderFailedEvent") order_failed_handler
    subscribe (text "PaymentCompletedEvent") payment_completed_handler
    subscribe (text "PaymentFailedEvent") payment_failed_handler
