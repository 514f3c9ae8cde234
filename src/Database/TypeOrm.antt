-- ===== src/Database/TypeOrm.antt =====
-- `Repository` of the typeorm package, which the repositories call: a parameter of the model, with
-- what its documentation promises. `save` rejects where the database does (a lost connection, a
-- broken constraint) and then changes nothing.
use hanghae_plus_backend.Prelude.{ℕ, ◌≡◌, ◌≢◌, Bool, Option, none, some, List, ◌==◌, if◌then◌else◌}
use hanghae_plus_backend.Failure.{Result, ok}
use hanghae_plus_backend.Database.Entity.{HasKey}

pub record TypeOrm {E : Type 0} (k : HasKey E) : Type 1 where
  pub Rows : Type 0
  -- `findOne({ where: { id } })`
  pub find_one : Rows → ℕ → Option E
  -- `find({ where })`
  pub find : Rows → (E → Bool) → List E
  pub save : Rows → E → Result (E × Rows)
  -- A row is found under its own key.
  pub find_one_key : (r : Rows) (i : ℕ) (e : E) → find_one r i ≡ some e → k.key e ≡ i
  -- Generated keys begin at 1.
  pub find_one_pos : (r : Rows) (i : ℕ) (e : E) → find_one r i ≡ some e → i ≢ 0
  -- The saved entity is what is found under its key; other rows are left alone.
  pub find_one-save :
      (r : Rows) (e : E) {e' : E} {r' : Rows}
      → save r e ≡ ok (e', r')
      → (i : ℕ) → find_one r' i ≡ (if k.key e' == i then some e' else find_one r i)
  -- An entity with a key is saved as it is.
  pub save_update :
      (r : Rows) (e : E) {e' : E} {r' : Rows} → save r e ≡ ok (e', r') → k.key e ≢ 0 → e' ≡ e
  -- An entity without one gets a new key.
  pub save_insert :
      (r : Rows) (e : E) {e' : E} {r' : Rows}
      → save r e ≡ ok (e', r')
      → k.key e ≡ 0
      → (e' ≡ k.with_key (k.key e') e) × (k.key e' ≢ 0) × (find_one r (k.key e') ≡ none)
