-- ===== src/RedisService/Commands.antt =====
-- The commands on keys of src/infrastructure/services/redis.service.ts. `now` is `Date.now()`.
use hanghae_plus_backend.Prelude.{
  ℕ, ◌+◌, ◌-◌, ◌*◌, String, Bool, true, false, not, ◌&&◌, Option, none, some, List, [], ◌∷◌,
  if◌then◌else◌,
}
use hanghae_plus_backend.Prelude.Int.{ℤ, pos, negsuc, ◌+ℤ◌, ◌-ℤ◌}
use hanghae_plus_backend.RedisService.Map.{lookup, has}
use hanghae_plus_backend.RedisService.Map as Map
use hanghae_plus_backend.RedisService.Value.{
  Value, Lock, Locks, is_expired, parse_int, to_string, same_value,
}

-- The optional arguments of SET, each with its amount.
pub data SetArg : Type 0 where
  px : ℕ → SetArg
  nx : SetArg
  other : String → SetArg

-- `args[args.indexOf('PX') + 1]`, or 5,000 without `PX`.
abbrev pub ttl_of : List SetArg → ℕ
ttl_of [] = 5000
ttl_of (px ttl ∷ args) = ttl
ttl_of (nx ∷ args) = ttl_of args
ttl_of (other a ∷ args) = ttl_of args

-- `args.indexOf('NX') !== -1`
abbrev pub has_nx : List SetArg → Bool
has_nx [] = false
has_nx (px ttl ∷ args) = has_nx args
has_nx (nx ∷ args) = true
has_nx (other a ∷ args) = has_nx args

unfoldable pub set : ℕ → String → Value → List SetArg → Locks → Option String × Locks
set now key value args locks =
    if has_nx args && has key locks
    then (none, locks)
    else (some "OK", Map.set key (record { value = value; expires_at = now + ttl_of args }) locks)

-- The script that deletes a key if its value is the expected one; `1` is true.
unfoldable pub eval : String → Value → Locks → Bool × Locks
eval key expected locks = elim (lookup key locks) [
  | none ↦ (false, locks)
  | some lock ↦
      if same_value lock.value expected then (true, Map.delete key locks) else (false, locks)
]

-- `Math.max(0, expiresAt - Date.now())`, as the difference of natural numbers is.
unfoldable pub pttl : ℕ → String → Locks → ℤ
pttl now key locks = elim (lookup key locks) [
  | none ↦ negsuc 0
  | some lock ↦ pos (lock.expires_at - now)
]

unfoldable pub exists : ℕ → String → Locks → Bool × Locks
exists now key locks = elim (lookup key locks) [
  | none ↦ (false, locks)
  | some lock ↦ if is_expired now lock then (false, Map.delete key locks) else (true, locks)
]

-- The keys that a pattern matches; `test` is the test of its regular expression.
unfoldable pub keys : ℕ → (String → Bool) → Locks → List String
keys now test [] = []
keys now test ((key, lock) ∷ locks) =
    let rest = keys now test locks in
    if test key && not (is_expired now lock) then key ∷ rest else rest

-- What `?.value` reads.
abbrev pub value_of : Option Lock → Option Value
value_of none = none
value_of (some lock) = some lock.value

-- `currentValue - 1`, which is NaN with NaN.
abbrev pub less_one : Option ℤ → Option ℤ
less_one none = none
less_one (some n) = some (n -ℤ pos 1)

abbrev pub plus_one : Option ℤ → Option ℤ
plus_one none = none
plus_one (some n) = some (n +ℤ pos 1)

abbrev pub store_number : ℕ → String → Option ℤ → Locks → Option ℤ × Locks
store_number now key n locks =
    (n, Map.set key (record { value = to_string n; expires_at = now + 30000 }) locks)

unfoldable pub decr : ℕ → String → Locks → Option ℤ × Locks
decr now key locks = store_number now key (less_one (parse_int (value_of (lookup key locks)))) locks

unfoldable pub incr : ℕ → String → Locks → Option ℤ × Locks
incr now key locks = store_number now key (plus_one (parse_int (value_of (lookup key locks)))) locks

unfoldable pub get : ℕ → String → Locks → Option Value
get now key locks = elim (lookup key locks) [
  | none ↦ none
  | some lock ↦ if is_expired now lock then none else some lock.value
]

-- The number of keys that were deleted.
unfoldable pub del : List String → Locks → ℕ × Locks
del [] locks = (0, locks)
del (key ∷ ks) locks =
    let (count, rest) = del ks (Map.delete key locks) in
    (if has key locks then count + 1 else count, rest)

unfoldable pub expire : ℕ → String → ℕ → Locks → Bool × Locks
expire now key seconds locks = elim (lookup key locks) [
  | none ↦ (false, locks)
  | some lock ↦ (true, Map.set key (record lock { expires_at = now + seconds * 1000 }) locks)
]
