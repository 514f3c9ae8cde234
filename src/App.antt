-- ===== src/App.antt =====
-- The state of the running program, and its actions: an action returns or throws, and what was
-- written before a throw stays written. The clock stands still while one request runs.
use hanghae_plus_backend.Prelude.{◌≡◌, refl, ◌⊎◌, inl, inr, ℕ, String, Option, List, [], ◌∷◌}
use hanghae_plus_backend.Failure.{Result, ok, err, Exception}
use hanghae_plus_backend.Database.Env.{Env}
use hanghae_plus_backend.Event.{Event}
use hanghae_plus_backend.Domain.RankingLog.{RankingLog}

-- The functions that src/app.module.ts subscribes.
pub data Handler : Type 0 where
  order_created_handler order_failed_handler payment_completed_handler payment_failed_handler :
      Handler

pub record State (env : Env) : Type 0 where
  pub users : env.users.Rows
  pub products : env.products.Rows
  pub coupons : env.coupons.Rows
  pub orders : env.orders.Rows
  pub payments : env.payments.Rows
  pub redis : env.redis.Store
  pub now : ℕ
  -- The bus: its map from a name, or `undefined`, to handlers; the calls that `setImmediate` has
  -- queued; and, for the statements, each event that was given to `publish`.
  pub handlers : List (Option String × List Handler)
  pub queued : List (Handler × Event)
  pub published : List Event
  -- `setTimeout`: when each timer fires and what it publishes.
  pub timers : List (ℕ × Event)
  -- The ranking logs whose save `setImmediate` has queued.
  pub logs : List RankingLog

abbrev pub Action : Env → Type 0 → Type 0
Action env A = State env → Result A × State env

module _ {env : Env} {A : Type 0} where
  abbrev pub pure : A → Action env A
  pure a s = (ok a, s)

  abbrev pub raise : Exception → Action env A
  raise e s = (err e, s)

  -- A computation that touches no state.
  abbrev pub lift : Result A → Action env A
  lift r s = (r, s)

  abbrev pub gets : (State env → A) → Action env A
  gets f s = (ok (f s), s)

  -- `try { m } catch (error) { h(error) }`
  abbrev pub catch : Action env A → (Exception → Action env A) → Action env A
  catch m h s = let (r, s') = m s in elim r [ ok a ↦ (ok a, s') | err e ↦ h e s' ]

infixl 5 ◌>>=◌ ◌>>◌
abbrev pub ◌>>=◌ : {env : Env} {A B : Type 0} → Action env A → (A → Action env B) → Action env B
◌>>=◌ m f s = let (r, s') = m s in elim r [ ok a ↦ f a s' | err e ↦ (err e, s') ]

abbrev pub ◌>>◌ : {env : Env} {A B : Type 0} → Action env A → Action env B → Action env B
m >> k = m >>= λ _. k

abbrev pub modify : {env : Env} → (State env → State env) → Action env (Unit {0})
modify f s = (ok tt, f s)

-- `for (const x of xs) { body(x) }`
abbrev pub for_each :
    {env : Env} {A : Type 0} → List A → (A → Action env (Unit {0})) → Action env (Unit {0})
for_each [] body = pure tt
for_each (x ∷ xs) body = body x >> for_each xs body

-- An action from a state returns or throws, in some state.
pub run-cases :
    {env : Env} {A : Type 0} (m : Action env A) (s : State env)
    → ((a : A) × (s' : State env) × (m s ≡ (ok a, s')))
      ⊎ ((e : Exception) × (s' : State env) × (m s ≡ (err e, s')))
run-cases {env} {A} m s = outcome (m s) refl
  where
    outcome :
        (r : Result A × State env)
        → m s ≡ r
        → ((a : A) × (s' : State env) × (m s ≡ (ok a, s')))
          ⊎ ((e : Exception) × (s' : State env) × (m s ≡ (err e, s')))
    outcome (ok a, s') e = inl (a, s', e)
    outcome (err x, s') e = inr (x, s', e)
