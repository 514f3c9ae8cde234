-- ===== src/Lock/Clients.antt =====
-- Clients that share the locks of src/infrastructure/services/redis-distributed-lock.service.ts, as the
-- interceptors of src/common/interceptors use them: each runs its handler between acquireLock and
-- releaseLock, and their calls interleave in any order.
use hanghae_plus_backend.Prelude.{
  ℕ, zero, suc, All, get_elem?, ◌+◌, ◌<◌, ◌≡◌, String, Bool, true, false, some, List, [], ◌∷◌,
  str_eq,
}
use hanghae_plus_backend.Async.{returns}
use hanghae_plus_backend.RedisService.Map.{lookup}
use hanghae_plus_backend.RedisService.Value.{Lock}
use hanghae_plus_backend.Lock.Interface.{LockOptions}
use hanghae_plus_backend.Lock.Memory.{Memory, memory}
use hanghae_plus_backend.Lock.Service.{default, acquire_lock, release_lock, is_locked}

-- A client between its acquisition and its release, and when the lock that it wrote expires.
pub record Holder : Type 0 where
  pub client : ℕ
  pub key : String
  pub deadline : ℕ

pub record System : Type 0 where
  pub shared : Memory
  pub holders : List Holder

-- No lock of a holder has expired at a time.
abbrev pub InTime : List Holder → ℕ → Type 0
InTime holders now = All (λ h. now < h.deadline) holders

abbrev pub without : ℕ → List Holder → List Holder
without i [] = []
without zero (h ∷ hs) = hs
without (suc i) (h ∷ hs) = h ∷ without i hs

-- A step of one client, or of the time: time passes, also while a client sleeps, only as long as every
-- holder finishes before its lock expires.
pub data Step (test : String → String → Bool) (s : System) : System → Type 0 where
  acquire :
      (client : ℕ) (key : String) (options : LockOptions) (w : Memory)
      → acquire_lock (memory test) key options s.shared ≡ (returns true, w)
      → 0 < default options.ttl 5000
      → Step test s (record {
        shared = w;
        holders =
            record {
              client = client;
              key = key;
              deadline = s.shared.now + default options.ttl 5000;
            }
            ∷ s.holders;
      })
  refused :
      (key : String) (options : LockOptions) (w : Memory)
      → acquire_lock (memory test) key options s.shared ≡ (returns false, w)
      → InTime s.holders w.now
      → Step test s (record s { shared = w })
  release :
      (i : ℕ) (h : Holder) (freed : Bool) (w : Memory)
      → get_elem? s.holders i ≡ some h
      → release_lock (memory test) h.key s.shared ≡ (returns freed, w)
      → Step test s (record { shared = w; holders = without i s.holders })
  look :
      (key : String) (answer : Bool) (w : Memory)
      → is_locked (memory test) key s.shared ≡ (returns answer, w)
      → Step test s (record s { shared = w })
  pass :
      (later : ℕ)
      → InTime s.holders later
      → Step test s (record s { shared = record s.shared { now = later } })

pub data Reach (test : String → String → Bool) (s : System) : System → Type 0 where
  here : Reach test s s
  next : {t u : System} → Reach test s t → Step test t u → Reach test s u

-- The lock of a holder is in the map, and has not expired.
abbrev pub Held : Memory → Holder → Type 0
Held w h =
    ((l : Lock) × (lookup h.key w.locks ≡ some l) × (l.expires_at ≡ h.deadline))
    × (w.now < h.deadline)

abbrev pub Other : String → Holder → Type 0
Other key h = str_eq key h.key ≡ false

-- No two holders hold the same key.
abbrev pub Apart : List Holder → Type 0
Apart [] = Unit
Apart (h ∷ hs) = All (Other h.key) hs × Apart hs

pub record IsExclusive (s : System) : Type 0 where
  pub held : All (Held s.shared) s.holders
  pub apart : Apart s.holders
