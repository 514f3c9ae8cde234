-- ===== src/Database/Redis.antt =====
-- src/application/interfaces/services/redis-service.interface.ts: what the use cases of orders,
-- payments, points, coupons and products call of the Redis service, with what the commands of Redis
-- promise. A call that rejects is `none`. The members of the sorted sets are identifiers, which the
-- source writes as decimal texts.
use hanghae_plus_backend.Prelude.{
  ℕ, ◌≡◌, ◌≢◌, ◌⊎◌, List, String, Bool, false, ◌&&◌, Option, none, some, ◌==◌, str_eq,
  if◌then◌else◌,
}
use hanghae_plus_backend.Dto.{ProductResponseDto}
use hanghae_plus_backend.Prelude.Int.{ℤ, pos, ◌+ℤ◌, ◌-ℤ◌}

-- The keys of the sorted sets and counters; `ranking_day d` is `product:ranking:YYYY-MM-DD` for the
-- d-th day (UTC) since 1970, and the others are `coupon:queue:…` to `coupon:endtime:…` for a type.
pub data Key : Type 0 where
  ranking_day : ℕ → Key
  ranking_3d : Key
  coupon_queue coupon_issued coupon_rank coupon_stock coupon_endtime : String → Key

-- A number for the prefix of a key.
abbrev pub prefix : Key → ℕ
prefix (ranking_day _) = 0
prefix ranking_3d = 1
prefix (coupon_queue _) = 2
prefix (coupon_issued _) = 3
prefix (coupon_rank _) = 4
prefix (coupon_stock _) = 5
prefix (coupon_endtime _) = 6

abbrev pub day : Key → ℕ
day (ranking_day d) = d
day ranking_3d = 0
day (coupon_queue _) = 0
day (coupon_issued _) = 0
day (coupon_rank _) = 0
day (coupon_stock _) = 0
day (coupon_endtime _) = 0

abbrev pub type_of : Key → String
type_of (ranking_day _) = ""
type_of ranking_3d = ""
type_of (coupon_queue t) = t
type_of (coupon_issued t) = t
type_of (coupon_rank t) = t
type_of (coupon_stock t) = t
type_of (coupon_endtime t) = t

abbrev pub same_key : Key → Key → Bool
same_key a b = (prefix a == prefix b) && ((day a == day b) && str_eq (type_of a) (type_of b))

pub record RedisServiceInterface : Type 1 where
  pub Store : Type 0
  pub zscore : Key → ℕ → Store → Option (Option ℤ)
  pub zadd : Key → ℤ → ℕ → Store → Option Store
  pub zrem : Key → ℕ → Store → Option Store
  -- The rank of a member that is in the set.
  pub zrank : Key → ℕ → Store → Option ℤ
  -- The number that is written under a key.
  pub get : Key → Store → Option (Option ℤ)
  pub decr : Key → Store → Option (ℤ × Store)
  pub incr : Key → Store → Option (ℤ × Store)
  pub expire : Key → ℕ → Store → Option Store
  pub invalidate_product_cache : ℕ → Store → Option Store
  pub invalidate_products_cache : Store → Option Store
  pub invalidate_user_points_cache : ℕ → Store → Option Store
  -- The members from one index to another, -1 being the last, with their scores, lowest first.
  pub zrange : Key → (start stop : ℤ) → Store → Option (List (ℕ × ℤ))
  pub zcard : Key → Store → Option ℕ
  pub del : Key → Store → Option Store
  -- The decimal text of a number.
  pub set : Key → ℤ → Store → Option Store
  -- The caches; the last number of a `set` is the time to live in seconds.
  pub get_user_points_cache : ℕ → Store → Option (Option ℤ)
  pub set_user_points_cache : ℕ → ℤ → ℕ → Store → Option Store
  pub get_product_cache : ℕ → Store → Option (Option ProductResponseDto)
  pub set_product_cache : ℕ → ProductResponseDto → ℕ → Store → Option Store
  pub get_products_cache : Store → Option (Option (List ProductResponseDto))
  pub set_products_cache : List ProductResponseDto → ℕ → Store → Option Store
  -- What the store holds: the score of a member, and the value of a counter, 0 if it is not set.
  pub score : Key → ℕ → Store → Option ℤ
  pub value : Key → Store → ℤ
  -- What the caches hold, be it still in time or not.
  pub points_cache : ℕ → Store → Option ℤ
  pub product_cache : ℕ → Store → Option ProductResponseDto
  -- `ZSCORE` reads the score.
  pub zscore_score :
      (k : Key) (m : ℕ) (r : Store) {x : Option ℤ} → zscore k m r ≡ some x → x ≡ score k m r
  -- `ZADD` sets one score, `ZREM` removes one; neither touches a counter.
  pub score-zadd :
      (k : Key) (x : ℤ) (m : ℕ) (r : Store) {r' : Store}
      → zadd k x m r ≡ some r'
      → (j : Key) (n : ℕ)
      → score j n r' ≡ (if same_key k j && (m == n) then some x else score j n r)
  pub value-zadd :
      (k : Key) (x : ℤ) (m : ℕ) (r : Store) {r' : Store}
      → zadd k x m r ≡ some r'
      → (j : Key) → value j r' ≡ value j r
  pub score-zrem :
      (k : Key) (m : ℕ) (r : Store) {r' : Store}
      → zrem k m r ≡ some r'
      → (j : Key) (n : ℕ) → score j n r' ≡ (if same_key k j && (m == n) then none else score j n r)
  pub value-zrem :
      (k : Key) (m : ℕ) (r : Store) {r' : Store}
      → zrem k m r ≡ some r'
      → (j : Key) → value j r' ≡ value j r
  -- `DECR` and `INCR` change one counter by one, answer its new value, and touch no set.
  pub value-decr :
      (k : Key) (r : Store) {n : ℤ} {r' : Store}
      → decr k r ≡ some (n, r')
      → (n ≡ value k r -ℤ pos 1)
        × ((j : Key) → value j r' ≡ (if same_key k j then n else value j r))
  pub score-decr :
      (k : Key) (r : Store) {n : ℤ} {r' : Store}
      → decr k r ≡ some (n, r')
      → (j : Key) (m : ℕ) → score j m r' ≡ score j m r
  pub value-incr :
      (k : Key) (r : Store) {n : ℤ} {r' : Store}
      → incr k r ≡ some (n, r')
      → (n ≡ value k r +ℤ pos 1)
        × ((j : Key) → value j r' ≡ (if same_key k j then n else value j r))
  pub score-incr :
      (k : Key) (r : Store) {n : ℤ} {r' : Store}
      → incr k r ≡ some (n, r')
      → (j : Key) (m : ℕ) → score j m r' ≡ score j m r
  -- `EXPIRE` with a time to come changes no score until then.
  pub score-expire :
      (k : Key) (seconds : ℕ) (r : Store) {r' : Store}
      → expire k seconds r ≡ some r'
      → seconds ≢ 0
      → (j : Key) (n : ℕ) → score j n r' ≡ score j n r
  -- `ZADD` to one set leaves the members of the others.
  pub zrange-zadd :
      (k : Key) (x : ℤ) (m : ℕ) (r : Store) {r' : Store}
      → zadd k x m r ≡ some r'
      → (j : Key) → same_key k j ≡ false
      → (start stop : ℤ) → zrange j start stop r' ≡ zrange j start stop r
  -- `SET` writes one counter.
  pub value-set :
      (k : Key) (n : ℤ) (r : Store) {r' : Store}
      → set k n r ≡ some r'
      → (j : Key) → value j r' ≡ (if same_key k j then n else value j r)
  -- A cache reads what it holds, or nothing once that has expired; it holds what was put into it last.
  pub get_user_points_cache_lem :
      (i : ℕ) (r : Store) {x : Option ℤ}
      → get_user_points_cache i r ≡ some x
      → (x ≡ none) ⊎ (x ≡ points_cache i r)
  pub points_cache-set_user_points_cache :
      (i : ℕ) (points : ℤ) (ttl : ℕ) (r : Store) {r' : Store}
      → set_user_points_cache i points ttl r ≡ some r'
      → (j : ℕ) → points_cache j r' ≡ (if i == j then some points else points_cache j r)
  pub points_cache-invalidate_user_points_cache :
      (i : ℕ) (r : Store) {r' : Store}
      → invalidate_user_points_cache i r ≡ some r'
      → (j : ℕ) → points_cache j r' ≡ (if i == j then none else points_cache j r)
  pub get_product_cache_lem :
      (i : ℕ) (r : Store) {x : Option ProductResponseDto}
      → get_product_cache i r ≡ some x
      → (x ≡ none) ⊎ (x ≡ product_cache i r)
  pub product_cache-set_product_cache :
      (i : ℕ) (p : ProductResponseDto) (ttl : ℕ) (r : Store) {r' : Store}
      → set_product_cache i p ttl r ≡ some r'
      → (j : ℕ) → product_cache j r' ≡ (if i == j then some p else product_cache j r)
  pub product_cache-invalidate_product_cache :
      (i : ℕ) (r : Store) {r' : Store}
      → invalidate_product_cache i r ≡ some r'
      → (j : ℕ) → product_cache j r' ≡ (if i == j then none else product_cache j r)
  -- To drop the lists of products leaves the single products.
  pub product_cache-invalidate_products_cache :
      (r : Store) {r' : Store}
      → invalidate_products_cache r ≡ some r'
      → (j : ℕ) → product_cache j r' ≡ product_cache j r
