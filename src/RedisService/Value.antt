-- ===== src/RedisService/Value.antt =====
-- What src/infrastructure/services/redis.service.ts keeps under a key, and when it expires.
use hanghae_plus_backend.Prelude.{
  ℕ, String, Bool, true, false, Option, none, some, List, [], ◌∷◌, ltb, if◌then◌else◌, str_eq,
}
use hanghae_plus_backend.Prelude.Int.{ℤ, pos, eqb_ℤ}
use hanghae_plus_backend.RedisService.Map.{Map, from_entries}

-- The strings that are stored: the decimals of an integer, the JSON text of the entries of a sorted
-- set, and any other text, which neither begins with a number nor is JSON.
pub data Value : Type 0 where
  text : String → Value
  number : ℤ → Value
  json : List (String × ℤ) → Value

-- `expiresAt` is in milliseconds since 1970.
pub record Lock : Type 0 where
  pub value : Value
  pub expires_at : ℕ

-- `testLocks`
abbrev pub Locks : Type 0
Locks = Map Lock

-- `Date.now() > expiresAt`
abbrev pub is_expired : ℕ → Lock → Bool
is_expired now lock = ltb lock.expires_at now

-- `parseInt(value || '0')`, which is none where it is NaN.
abbrev pub parse_int : Option Value → Option ℤ
parse_int none = some (pos 0)
parse_int (some (text s)) = if str_eq s "" then some (pos 0) else none
parse_int (some (number n)) = some n
parse_int (some (json es)) = none

-- `n.toString()`
abbrev pub to_string : Option ℤ → Value
to_string none = text "NaN"
to_string (some n) = number n

-- `===` on two stored strings.
abbrev same_entry : String × ℤ → String × ℤ → Bool
same_entry (a, x) (b, y) = if str_eq a b then eqb_ℤ x y else false

abbrev same_entries : List (String × ℤ) → List (String × ℤ) → Bool
same_entries [] [] = true
same_entries [] (_ ∷ _) = false
same_entries (_ ∷ _) [] = false
same_entries (a ∷ more) (b ∷ others) =
    let rest = same_entries more others in if same_entry a b then rest else false

abbrev pub same_value : Value → Value → Bool
same_value (text a) (text b) = str_eq a b
same_value (text a) (number n) = false
same_value (text a) (json es) = false
same_value (number n) (text a) = false
same_value (number n) (number m) = eqb_ℤ n m
same_value (number n) (json es) = false
same_value (json es) (text a) = false
same_value (json es) (number n) = false
same_value (json es) (json fs) = same_entries es fs

-- What is done with `new Map(JSON.parse(value))`, which throws on a text that is not the entries of a map.
abbrev pub with_map {ℓ} : {A : Type ℓ} → Value → (Map ℤ → A) → Option A
with_map (text s) action = none
with_map (number n) action = none
with_map (json es) action = some (action (from_entries es))
