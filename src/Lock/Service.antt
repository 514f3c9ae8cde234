-- ===== src/Lock/Service.antt =====
-- src/infrastructure/services/redis-distributed-lock.service.ts: acquiring, reading and releasing locks.
use hanghae_plus_backend.Prelude.{
  ℕ, zero, suc, String, Bool, true, false, Option, none, some, List, [], ◌∷◌, ◌==◌, str_eq,
  if◌then◌else◌, ltb, length,
}
use hanghae_plus_backend.Prelude.Int.{ℤ, pos, negsuc, leb_ℤ, eqb_ℤ}
use hanghae_plus_backend.Async.{Async, plain_error, message, return, throw, ◌>>=◌, ◌>>◌, catch}
use hanghae_plus_backend.Lock.Interface.{LockOptions, LockService}
use hanghae_plus_backend.Lock.Redis.{LockRedis}
use hanghae_plus_backend.RedisService.Commands.{px, nx}
use Prim.Native.String.{◌++◌}

-- The default value of a destructured option.
abbrev pub default : Option ℕ → ℕ → ℕ
default none d = d
default (some n) d = n

abbrev is_ok : Option String → Bool
is_ok none = false
is_ok (some answer) = str_eq answer "OK"

module _ {W : Type 0} (redis : LockRedis W) where
  unfoldable pub sleep : ℕ → Async W (Unit {0})
  sleep ms w = return tt (redis.sleep ms w)

  -- One turn of the loop of `acquireLock`, after which `left` are to go: whether the lock was acquired.
  unfoldable pub turn : (key : String) (ttl retry_delay left : ℕ) → Async W Bool
  turn key ttl retry_delay left =
      catch
        (redis.set key "locked" (px ttl ∷ nx ∷ []) >>= λ result.
          if is_ok result
          then return true
          else if ltb 0 left
          then sleep retry_delay >> return false
          else return false)
        (λ error.
          if left == 0
          then throw (plain_error ("Redis 락 획득 실패: " ++ message error))
          else return false)

  unfoldable pub turns : (key : String) (ttl retry_delay count : ℕ) → Async W Bool
  turns key ttl retry_delay zero = return false
  turns key ttl retry_delay (suc left) =
      let again = turns key ttl retry_delay left in
      turn key ttl retry_delay left >>= λ acquired. if acquired then return true else again

  unfoldable pub acquire_lock : String → LockOptions → Async W Bool
  acquire_lock key options =
      turns key (default options.ttl 5000) (default options.retry_delay 100)
        (default options.retry_count 3)

  unfoldable pub release_lock : String → Async W Bool
  release_lock key =
      catch (redis.del (key ∷ []) >>= λ result. return (result == 1)) (λ error. return false)

  unfoldable pub get_lock_ttl : String → Async W ℤ
  get_lock_ttl key = catch (redis.pttl key) (λ error. return (negsuc 0))

  -- What is made of the time to live: an expired lock is deleted.
  unfoldable pub is_valid : String → ℤ → Async W Bool
  is_valid key ttl =
      if eqb_ℤ ttl (negsuc 0)
      then return false
      else if eqb_ℤ ttl (negsuc 1)
      then return true
      else if leb_ℤ ttl (pos 0)
      then catch (redis.del (key ∷ []) >> return false) (λ del_error. return false)
      else return true

  unfoldable pub is_locked : String → Async W Bool
  is_locked key =
      catch
        (redis.exists key >>= λ exists.
          if exists == 0 then return false else redis.pttl key >>= λ ttl. is_valid key ttl)
        (λ error. return false)

  unfoldable pub get_lock_keys : String → Async W (List String)
  get_lock_keys pattern = catch (redis.keys pattern) (λ error. return [])

  unfoldable pub clear_all_locks : String → Async W ℕ
  clear_all_locks pattern =
      catch
        (redis.keys pattern >>= λ keys. if ltb 0 (length keys) then redis.del keys else return 0)
        (λ error. return 0)

  -- The service as its clients see it.
  abbrev pub lock_service : LockService W
  lock_service = record {
    acquire_lock = acquire_lock;
    release_lock = release_lock;
    get_lock_ttl = get_lock_ttl;
    is_locked = is_locked;
    get_lock_keys = get_lock_keys;
    clear_all_locks = clear_all_locks;
  }
