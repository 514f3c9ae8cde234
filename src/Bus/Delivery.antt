-- ===== src/Bus/Delivery.antt =====
-- src/common/events/event-bus.ts: `subscribe` and `publish`.
use mathlib.Core.List.{map-append}
use hanghae_plus_backend.Prelude.{
  ◌≡◌, ◌≢◌, ◌↔◌, String, true, Option, none, some, List, [], ◌∷◌, ◌++◌, map, arith, if◌then◌else◌,
  eq_iff,
}
use hanghae_plus_backend.App.{State}
use hanghae_plus_backend.Database.Env.{Env}
use hanghae_plus_backend.App.{Handler}
use hanghae_plus_backend.Event.{Event, class_name}
use hanghae_plus_backend.EventBus.{
  EventType, name_of, same_name, Handlers, get_handlers, add_handler, subscribe, publish,
}

same_name_iff : (a b : Option String) → (same_name a b ≡ true) ↔ (a ≡ b)
same_name_iff none none = ground arith
same_name_iff none (some b) = ground arith
same_name_iff (some a) none = ground arith
same_name_iff (some a) (some b) = ground (arith, eq_iff a b)

-- A handler that is added stands last among those of its name; those of other names stay.
pub get_handlers-add_handler :
    (name key : Option String) (h : Handler) (hs : Handlers)
    → get_handlers name (add_handler key h hs)
      ≡ (if same_name name key then get_handlers name hs ++ h ∷ [] else get_handlers name hs)
unfolding get_handlers add_handler
get_handlers-add_handler name key h [] = ground arith
get_handlers-add_handler name key h ((k, gs) ∷ hs) = ground (
  arith,
  same_name_iff name k,
  same_name_iff key k,
  same_name_iff name key,
  get_handlers-add_handler name key h hs,
)

module _ {env : Env} where
  -- The calls that `publish` queues for an event.
  abbrev pub calls : Event → State env → List (Handler × Event)
  calls e s = map (λ h. (h, e)) (get_handlers (some (class_name e)) s.handlers)

  -- After a handler subscribed to a class, an event of that class queues one more call, of that
  -- handler, behind the calls it queued before.
  pub calls-subscribe :
      (event_type : EventType) (h : Handler) (e : Event) (s : State env)
      → name_of event_type ≡ some (class_name e)
      → (publish e (subscribe event_type h s).1).1.queued ≡ s.queued ++ (calls e s ++ (h, e) ∷ [])
  unfolding publish subscribe
  calls-subscribe event_type h e s same_class =
      let found =
        get_handlers-add_handler (some (class_name e)) (name_of event_type) h s.handlers in
      let same = same_name_iff (some (class_name e)) (name_of event_type) in
      let mapped =
        map-append {B = Handler × Event} (λ g. (g, e))
          (get_handlers (some (class_name e)) s.handlers) (h ∷ []) in
      ground (arith, found, same, mapped)

  -- A handler that subscribed to another class, or by a text, whose `name` is undefined, is not
  -- called: the event queues the calls it queued before.
  pub calls-subscribe_other :
      (event_type : EventType) (h : Handler) (e : Event) (s : State env)
      → name_of event_type ≢ some (class_name e)
      → (publish e (subscribe event_type h s).1).1.queued ≡ s.queued ++ calls e s
  unfolding publish subscribe
  calls-subscribe_other event_type h e s other =
      let found =
        get_handlers-add_handler (some (class_name e)) (name_of event_type) h s.handlers in
      let same = same_name_iff (some (class_name e)) (name_of event_type) in
      ground (arith, found, same)
