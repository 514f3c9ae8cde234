-- ===== src/Repository/Row.antt =====
-- A write of one table: the rows are put back only if TypeORM's `save` resolves.
use hanghae_plus_backend.App.{State}
use hanghae_plus_backend.Database.Env.{Env}
use hanghae_plus_backend.Failure.{Result, ok, err}

abbrev pub commit :
    {env : Env} {E Rows : Type 0}
    → Result (E × Rows)
    → (Rows → State env)
    → State env
    → Result E × State env
commit (ok (e, rows)) put s = (ok e, put rows)
commit (err x) put s = (err x, s)
