-- ===== src/Tests/Stored.antt =====
-- A Redis store in memory, which keeps the promises of
-- src/application/interfaces/services/redis-service.interface.ts.
use hanghae_plus_backend.Prelude.{
  ℕ, ◌≡◌, ◌⊎◌, inr, length, sym, false, ◌&&◌, Option, none, some, List, [], arith, ◌==◌,
  if◌then◌else◌,
}
use hanghae_plus_backend.Prelude.Int.{ℤ, pos, ◌+ℤ◌, ◌-ℤ◌, eqb_ℤ}
use hanghae_plus_backend.Dto.{ProductResponseDto}
use hanghae_plus_backend.Database.Redis.{RedisServiceInterface, Key, same_key}

-- The scores of the sorted sets and the values of the counters.
pub record Stored : Type 0 where
  pub scores : Key → ℕ → Option ℤ
  pub values : Key → ℤ
  -- The members of a set in their order, as far as they are asked for.
  pub ranges : Key → List (ℕ × ℤ)
  pub points : ℕ → Option ℤ
  pub product : ℕ → Option ProductResponseDto
  pub product_list : Option (List ProductResponseDto)

abbrev pub nothing_stored : Stored
nothing_stored = record {
  scores = λ k m. none;
  values = λ k. pos 0;
  ranges = λ k. [];
  points = λ i. none;
  product = λ i. none;
  product_list = none;
}

abbrev set_score : Key → ℕ → Option ℤ → Stored → Stored
set_score k m x r = record r {
  scores = λ j n. if same_key k j && (m == n) then x else r.scores j n;
}

abbrev set_value : Key → ℤ → Stored → Stored
set_value k n r = record r { values = λ j. if same_key k j then n else r.values j }

pub zscore_stored :
    (k : Key) (m : ℕ) (r : Stored) {x : Option ℤ} → some (r.scores k m) ≡ some x → x ≡ r.scores k m
zscore_stored k m r h = ground arith

pub score-set_score :
    (k : Key) (m : ℕ) (x : Option ℤ) (r : Stored) {r' : Stored}
    → some (set_score k m x r) ≡ some r'
    → (j : Key) (n : ℕ) → r'.scores j n ≡ (if same_key k j && (m == n) then x else r.scores j n)
score-set_score k m x r {r'} h j n =
    let same : set_score k m x r ≡ r' = ground arith in rw (sym same)

pub value-set_score :
    (k : Key) (m : ℕ) (x : Option ℤ) (r : Stored) {r' : Stored}
    → some (set_score k m x r) ≡ some r'
    → (j : Key) → r'.values j ≡ r.values j
value-set_score k m x r {r'} h j = let same : set_score k m x r ≡ r' = ground arith in rw (sym same)

-- A counter that is set to `v`.
abbrev count : Key → ℤ → Stored → Option (ℤ × Stored)
count k v r = some (v, set_value k v r)

pub value-count :
    (k : Key) (v : ℤ) (r : Stored) {n : ℤ} {r' : Stored}
    → count k v r ≡ some (n, r')
    → (n ≡ v) × ((j : Key) → r'.values j ≡ (if same_key k j then n else r.values j))
value-count k v r {n} {r'} h =
    let number : v ≡ n = ground arith in
    let same : set_value k v r ≡ r' = ground arith in (sym number, (λ j. rw (sym same, sym number)))

pub score-count :
    (k : Key) (v : ℤ) (r : Stored) {n : ℤ} {r' : Stored}
    → count k v r ≡ some (n, r')
    → (j : Key) (m : ℕ) → r'.scores j m ≡ r.scores j m
score-count k v r {n} {r'} h j m = let same : set_value k v r ≡ r' = ground arith in rw (sym same)

pub ranges-set_score :
    (k : Key) (m : ℕ) (x : Option ℤ) (r : Stored) {r' : Stored}
    → some (set_score k m x r) ≡ some r'
    → (j : Key) → same_key k j ≡ false
    → (start stop : ℤ) → some (r'.ranges j) ≡ some (r.ranges j)
ranges-set_score k m x r {r'} h j other start stop =
    let same : set_score k m x r ≡ r' = ground arith in rw (sym same)

pub score-stay :
    (r : Stored) {r' : Stored} → some r ≡ some r' → (j : Key) (n : ℕ) → r'.scores j n ≡ r.scores j n
score-stay r {r'} h j n = let same : r ≡ r' = ground arith in rw (sym same)

-- The entries under an identifier.
abbrev put {ℓ} : {A : Type ℓ} → ℕ → Option A → (ℕ → Option A) → ℕ → Option A
put i x f j = if i == j then x else f j

pub reads {ℓ} :
    {A : Type ℓ} (held : Option A) {x : Option A} → some held ≡ some x → (x ≡ none) ⊎ (x ≡ held)
reads held h = inr (ground arith)

abbrev set_points : ℕ → Option ℤ → Stored → Stored
set_points i x r = record r { points = put i x r.points }

abbrev set_product : ℕ → Option ProductResponseDto → Stored → Stored
set_product i x r = record r { product = put i x r.product }

pub points-set_points :
    (i : ℕ) (x : Option ℤ) (r : Stored) {r' : Stored}
    → some (set_points i x r) ≡ some r'
    → (j : ℕ) → r'.points j ≡ (if i == j then x else r.points j)
points-set_points i x r {r'} h j = let same : set_points i x r ≡ r' = ground arith in rw (sym same)

pub product-set_product :
    (i : ℕ) (x : Option ProductResponseDto) (r : Stored) {r' : Stored}
    → some (set_product i x r) ≡ some r'
    → (j : ℕ) → r'.product j ≡ (if i == j then x else r.product j)
product-set_product i x r {r'} h j =
    let same : set_product i x r ≡ r' = ground arith in rw (sym same)

pub product-set_list :
    (x : Option (List ProductResponseDto)) (r : Stored) {r' : Stored}
    → some (record r { product_list = x }) ≡ some r'
    → (j : ℕ) → r'.product j ≡ r.product j
product-set_list x r {r'} h j =
    let same : record r { product_list = x } ≡ r' = ground arith in rw (sym same)

pub values-set_value :
    (k : Key) (n : ℤ) (r : Stored) {r' : Stored}
    → some (set_value k n r) ≡ some r'
    → (j : Key) → r'.values j ≡ (if same_key k j then n else r.values j)
values-set_value k n r {r'} h j = let same : set_value k n r ≡ r' = ground arith in rw (sym same)

abbrev pub stored : RedisServiceInterface
stored = record {
  Store = Stored;
  zscore = λ k m r. some (r.scores k m);
  zadd = λ k x m r. some (set_score k m (some x) r);
  zrem = λ k m r. some (set_score k m none r);
  zrank = λ k m r. some (pos 0);
  get = λ k r. some (if eqb_ℤ (r.values k) (pos 0) then none else some (r.values k));
  decr = λ k r. count k (r.values k -ℤ pos 1) r;
  incr = λ k r. count k (r.values k +ℤ pos 1) r;
  expire = λ k seconds r. some r;
  invalidate_product_cache = λ id r. some (set_product id none r);
  invalidate_products_cache = λ r. some (record r { product_list = none });
  invalidate_user_points_cache = λ id r. some (set_points id none r);
  zrange = λ k start stop r. some (r.ranges k);
  zcard = λ k r. some (length (r.ranges k));
  del = λ k r. some (record r { ranges = λ j. if same_key k j then [] else r.ranges j });
  set = λ k n r. some (set_value k n r);
  get_user_points_cache = λ i r. some (r.points i);
  set_user_points_cache = λ i n ttl r. some (set_points i (some n) r);
  get_product_cache = λ i r. some (r.product i);
  set_product_cache = λ i p ttl r. some (set_product i (some p) r);
  get_products_cache = λ r. some r.product_list;
  set_products_cache = λ ps ttl r. some (record r { product_list = some ps });
  points_cache = λ i r. r.points i;
  product_cache = λ i r. r.product i;
  score-expire = λ k seconds r h later. score-stay r h;
  zrange-zadd = λ k x m r. ranges-set_score k m (some x) r;
  value-set = values-set_value;
  get_user_points_cache_lem = λ i r. reads (r.points i);
  points_cache-set_user_points_cache = λ i n ttl r. points-set_points i (some n) r;
  points_cache-invalidate_user_points_cache = λ i r. points-set_points i none r;
  get_product_cache_lem = λ i r. reads (r.product i);
  product_cache-set_product_cache = λ i p ttl r. product-set_product i (some p) r;
  product_cache-invalidate_product_cache = λ i r. product-set_product i none r;
  product_cache-invalidate_products_cache = λ r. product-set_list none r;
  score = λ k m r. r.scores k m;
  value = λ k r. r.values k;
  zscore_score = zscore_stored;
  score-zadd = λ k x m r. score-set_score k m (some x) r;
  value-zadd = λ k x m r. value-set_score k m (some x) r;
  score-zrem = λ k m r. score-set_score k m none r;
  value-zrem = λ k m r. value-set_score k m none r;
  value-decr = λ k r. value-count k (r.values k -ℤ pos 1) r;
  score-decr = λ k r. score-count k (r.values k -ℤ pos 1) r;
  value-incr = λ k r. value-count k (r.values k +ℤ pos 1) r;
  score-incr = λ k r. score-count k (r.values k +ℤ pos 1) r;
}
