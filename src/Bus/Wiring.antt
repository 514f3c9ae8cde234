-- ===== src/Bus/Wiring.antt =====
-- The subscriptions of src/app.module.ts.
use mathlib.Core.List.{append-nil}
use hanghae_plus_backend.Prelude.{◌≡◌, refl, ap, ◌∙◌, String, some, List, [], ◌∷◌, arith}
use hanghae_plus_backend.App.{State, for_each}
use hanghae_plus_backend.Database.Env.{Env}
use hanghae_plus_backend.Failure.{ok}
use hanghae_plus_backend.Event.{Event, class_name}
use hanghae_plus_backend.EventBus.{
  Handlers, add_handler, get_handlers, subscribe, publish, on_module_init,
}

publish-unheard :
    {env : Env} (e : Event) (s : State env)
    → get_handlers (some (class_name e)) s.handlers ≡ []
    → ((publish e s).1.queued ≡ s.queued) × ((publish e s).1.handlers ≡ s.handlers)
unfolding publish
publish-unheard e s h = (ground (arith, append-nil s.queued), refl)

-- No name has a handler.
abbrev IsDeaf : Handlers → Type 0
IsDeaf hs = (name : String) → get_handlers (some name) hs ≡ []

publish-quiet : {env : Env} (e : Event) (s : State env) → (publish e s).0 ≡ ok tt
unfolding publish
publish-quiet e s = refl

publishes-unheard :
    {env : Env} (events : List Event) (s : State env)
    → IsDeaf s.handlers
    → (for_each events publish s).1.queued ≡ s.queued
publishes-unheard [] s deaf = refl
publishes-unheard (e ∷ events) s deaf =
    let one = publish-unheard e s (deaf (class_name e)) in
    let rest =
      publishes-unheard events (publish e s).1
        (λ name. ap (get_handlers (some name)) one.1 ∙ deaf name) in
    ground (arith, publish-quiet e s, rest, one.0)

on_module_init-IsDeaf :
    {env : Env} (s : State env) → s.handlers ≡ [] → IsDeaf (on_module_init s).1.handlers
unfolding on_module_init subscribe add_handler get_handlers
on_module_init-IsDeaf s empty name = ground arith

-- The module subscribes its four handlers by texts, whose `name` is undefined: on a fresh bus no
-- event that is published afterwards, of any class, queues a call of any handler.
pub on_module_init-unheard :
    {env : Env} (events : List Event) (s : State env)
    → s.handlers ≡ []
    → (for_each events publish (on_module_init s).1).1.queued ≡ s.queued
on_module_init-unheard events s empty =
    publishes-unheard events (on_module_init s).1 (on_module_init-IsDeaf s empty) ∙ queue s
  where
    queue : {env : Env} (s : State env) → (on_module_init s).1.queued ≡ s.queued
    queue s = unfold on_module_init subscribe in refl
