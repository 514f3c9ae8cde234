-- ===== src/Lock/Memory.antt =====
-- The lock service on src/infrastructure/services/redis.service.ts without a server, of one client alone:
-- while it sleeps, only time passes.
use hanghae_plus_backend.Prelude.{ℕ, ◌+◌, String, Bool, if◌then◌else◌}
use hanghae_plus_backend.Async.{Async, return}
use hanghae_plus_backend.RedisService.Value.{Locks, text}
use hanghae_plus_backend.RedisService.Commands.{set, del, pttl, exists, keys}
use hanghae_plus_backend.Lock.Redis.{LockRedis}

pub record Memory : Type 0 where
  pub now : ℕ
  pub locks : Locks

-- A command that answers and changes the map.
abbrev replies : {A : Type 0} → A × Locks → Async Memory A
replies (answer, locks) w = return answer (record w { locks = locks })

-- `1` or `0`
abbrev pub flag : Bool → ℕ
flag b = if b then 1 else 0

-- `test` is the test of a pattern's regular expression.
abbrev pub memory : (test : String → String → Bool) → LockRedis Memory
memory test = record {
  set = λ key value args w. replies (set w.now key (text value) args w.locks) w;
  del = λ names w. replies (del names w.locks) w;
  pttl = λ key w. return (pttl w.now key w.locks) w;
  exists = λ key w.
      let (there, locks) = exists w.now key w.locks in
      return (flag there) (record w { locks = locks });
  keys = λ pattern w. return (keys w.now (test pattern) w.locks) w;
  sleep = λ ms w. record w { now = w.now + ms };
}
