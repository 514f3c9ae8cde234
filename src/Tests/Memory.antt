-- ===== src/Tests/Memory.antt =====
-- Tables in memory, which keep the promises of the package typeorm, and with the Redis store all that
-- src/app.module.ts injects.
use hanghae_plus_backend.Prelude.{
  ℕ, suc, ◌≤◌, ◌<◌, ◌≡◌, ◌≢◌, refl, sym, ap, ◌∙◌, Bool, Option, none, some, List, [], ◌∷◌, arith,
  ◌==◌, ltb, if◌then◌else◌,
}
use hanghae_plus_backend.Failure.{Result, ok}
use hanghae_plus_backend.Database.Entity.{
  HasKey, user_key, product_key, coupon_key, order_key, payment_key,
}
use hanghae_plus_backend.Database.TypeOrm.{TypeOrm}
use hanghae_plus_backend.Database.Accepts.{Accepts}
use hanghae_plus_backend.Database.Env.{Env}
use hanghae_plus_backend.Tests.Stored.{stored}

module _ {E : Type 0} (k : HasKey E) where
  abbrev lookup : List E → ℕ → Option E
  lookup [] i = none
  lookup (e ∷ r) i = if k.key e == i then some e else lookup r i

  abbrev find_one : List E → ℕ → Option E
  find_one r i = if i == 0 then none else lookup r i

  abbrev filter : List E → (E → Bool) → List E
  filter [] p = []
  filter (e ∷ r) p = let rest = filter r p in if p e then e ∷ rest else rest

  -- A key above all of the table.
  abbrev next_key : List E → ℕ
  next_key [] = 1
  next_key (e ∷ r) = let rest = next_key r in if ltb (k.key e) rest then rest else suc (k.key e)

  -- The entity with a generated key, if it has none.
  abbrev keyed : List E → E → E
  keyed r e = if k.key e == 0 then k.with_key (next_key r) e else e

  abbrev save : List E → E → Result (E × List E)
  save r e = ok (keyed r e, keyed r e ∷ r)

  next_key_pos : (r : List E) → 0 < next_key r
  next_key_pos [] = omega arith
  next_key_pos (e ∷ r) = ground (arith, next_key_pos r)

  lookup_above : (r : List E) (i : ℕ) → next_key r ≤ i → lookup r i ≡ none
  lookup_above [] i h = refl
  lookup_above (e ∷ r) i h = ground (arith, lookup_above r i)

  lookup_key : (r : List E) (i : ℕ) (e : E) → lookup r i ≡ some e → k.key e ≡ i
  lookup_key [] i e h = ground arith
  lookup_key (x ∷ r) i e h = ground (arith, lookup_key r i e)

  keyed_pos :
      ((n : ℕ) (e : E) → k.key (k.with_key n e) ≡ n) → (r : List E) (e : E) → k.key (keyed r e) ≢ 0
  keyed_pos with_key_key r e z = ground (arith, with_key_key (next_key r) e, next_key_pos r)

  keyed_new :
      ((n : ℕ) (e : E) → k.key (k.with_key n e) ≡ n)
      → (r : List E) (e : E) → k.key e ≡ 0
      → (keyed r e ≡ k.with_key (k.key (keyed r e)) e) × (find_one r (k.key (keyed r e)) ≡ none)
  keyed_new with_key_key r e z =
      let new : keyed r e ≡ k.with_key (next_key r) e = ground arith in
      let own : k.key (keyed r e) ≡ next_key r = ap k.key new ∙ with_key_key (next_key r) e in
      (
        new ∙ ap (λ n. k.with_key n e) (sym own),
        ground (arith, own, next_key_pos r, lookup_above r (next_key r)),
      )

  pub find_one_key : (r : List E) (i : ℕ) (e : E) → find_one r i ≡ some e → k.key e ≡ i
  find_one_key r i e h = ground (arith, lookup_key r i e)

  pub find_one_pos : (r : List E) (i : ℕ) (e : E) → find_one r i ≡ some e → i ≢ 0
  find_one_pos r i e h z = ground arith

  pub find_one-keyed :
      ((n : ℕ) (e : E) → k.key (k.with_key n e) ≡ n)
      → (r : List E) (e : E) {e' : E} {r' : List E} → save r e ≡ ok (e', r')
      → (i : ℕ) → find_one r' i ≡ (if k.key e' == i then some e' else find_one r i)
  find_one-keyed with_key_key r e h i = ground (arith, keyed_pos with_key_key r e)

  pub keyed_update :
      (r : List E) (e : E) {e' : E} {r' : List E} → save r e ≡ ok (e', r') → k.key e ≢ 0 → e' ≡ e
  keyed_update r e h known = ground arith

  pub keyed_insert :
      ((n : ℕ) (e : E) → k.key (k.with_key n e) ≡ n)
      → (r : List E) (e : E) {e' : E} {r' : List E} → save r e ≡ ok (e', r')
      → k.key e ≡ 0
      → (e' ≡ k.with_key (k.key e') e) × (k.key e' ≢ 0) × (find_one r (k.key e') ≡ none)
  keyed_insert with_key_key r e h new =
      let (made, unknown) = keyed_new with_key_key r e new in
      (ground (arith, made), ground (arith, keyed_pos with_key_key r e), ground (arith, unknown))

  abbrev pub memory : ((n : ℕ) (e : E) → k.key (k.with_key n e) ≡ n) → TypeOrm k
  memory with_key_key = record {
    Rows = List E;
    find_one = find_one;
    find = filter;
    save = save;
    find_one_key = find_one_key;
    find_one_pos = find_one_pos;
    find_one-save = find_one-keyed with_key_key;
    save_update = keyed_update;
    save_insert = keyed_insert with_key_key;
  }

  pub memory-Accepts :
      (with_key_key : (n : ℕ) (e : E) → k.key (k.with_key n e) ≡ n) → Accepts (memory with_key_key)
  memory-Accepts with_key_key r e = (keyed r e, keyed r e ∷ r, refl)

abbrev pub in_memory : Env
in_memory = record {
  users = memory user_key (λ n e. refl);
  products = memory product_key (λ n e. refl);
  coupons = memory coupon_key (λ n e. refl);
  orders = memory order_key (λ n e. refl);
  payments = memory payment_key (λ n e. refl);
  redis = stored;
}
