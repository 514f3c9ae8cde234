-- ===== src/Database/Accepts.antt =====
-- A table on which every `save` of TypeORM resolves: no lost connection and no broken constraint.
use hanghae_plus_backend.Prelude.{◌≡◌}
use hanghae_plus_backend.Failure.{ok}
use hanghae_plus_backend.Database.Entity.{HasKey}
use hanghae_plus_backend.Database.TypeOrm.{TypeOrm}

abbrev pub Accepts : {E : Type 0} {k : HasKey E} → TypeOrm k → Type 0
Accepts {E} db = (r : db.Rows) (e : E) → (e' : E) × (r' : db.Rows) × (db.save r e ≡ ok (e', r'))
