-- ===== src/Lock/Exclusion.antt =====
-- That no two clients of src/infrastructure/services/redis-distributed-lock.service.ts hold the same lock.
use hanghae_plus_backend.Prelude.{
  ℕ, zero, suc, All, All-mono, get_elem?, ◌≤◌, ◌≡◌, refl, sym, inl, inr, String, Bool, false, some,
  List, [], ◌∷◌, arith, str_eq, eq_iff, Bool-cases,
}
use hanghae_plus_backend.RedisService.Map.{
  lookup, has, lookup-set, lookup-delete, str_eq_refl, has-lookup, lookup-has,
}
use hanghae_plus_backend.RedisService.Map as Map
use hanghae_plus_backend.RedisService.Value.{Lock}
use hanghae_plus_backend.Lock.Memory.{Memory}
use hanghae_plus_backend.Lock.Service.{default}
use hanghae_plus_backend.Lock.Acquire.{locked, acquire_lock-Memory}
use hanghae_plus_backend.Lock.Release.{release_lock-Memory, is_locked-Memory}
use hanghae_plus_backend.Lock.Clients.{
  Holder, System, InTime, without, Step, acquire, refused, release, look, pass, Reach, here, next,
  Held, Other, Apart, IsExclusive,
}

module _ (P : Holder → Type 0) where
  All-without : (i : ℕ) (hs : List Holder) → All P hs → All P (without i hs)
  All-without i [] h = tt
  All-without zero (g ∷ hs) h = h.1
  All-without (suc i) (g ∷ hs) h = (h.0, All-without i hs h.1)

  All-get_elem? : (i : ℕ) (hs : List Holder) (h : Holder) → All P hs → get_elem? hs i ≡ some h → P h
  All-get_elem? i [] h a e = ground arith
  All-get_elem? zero (g ∷ hs) h a e = let same : g ≡ h = ground arith in rw (sym same) a.0
  All-get_elem? (suc i) (g ∷ hs) h a e = All-get_elem? i hs h a.1 e

Apart-without : (i : ℕ) (hs : List Holder) → Apart hs → Apart (without i hs)
Apart-without i [] h = tt
Apart-without zero (g ∷ hs) h = h.1
Apart-without (suc i) (g ∷ hs) h = (All-without (Other g.key) i hs h.0, Apart-without i hs h.1)

others :
    (i : ℕ) (hs : List Holder) (h : Holder)
    → Apart hs
    → get_elem? hs i ≡ some h
    → All (Other h.key) (without i hs)
others i [] h a e = tt
others zero (g ∷ hs) h a e = let same : g ≡ h = ground arith in rw (sym same) a.0
others (suc i) (g ∷ hs) h a e =
    let apart : str_eq g.key h.key ≡ false = All-get_elem? (Other g.key) i hs h a.0 e in
    (ground (arith, apart, eq_iff g.key h.key, eq_iff h.key g.key), others i hs h a.1 e)

-- Only the lock of a key changes, which none of the holders has, and all are in time.
keep-Held :
    (key : String) (w v : Memory)
    → ((j : String) → str_eq key j ≡ false → lookup j v.locks ≡ lookup j w.locks)
    → (hs : List Holder) → All (Other key) hs
    → InTime hs v.now
    → All (Held w) hs
    → All (Held v) hs
keep-Held key w v same [] o t h = tt
keep-Held key w v same (g ∷ hs) o t (((l, found, until), _), more) = (
  ((l, ground (arith, same g.key o.0, found), until), t.0),
  keep-Held key w v same hs o.1 t.1 more,
)

-- Nothing is written, and all are in time.
wait-Held :
    (w v : Memory)
    → v.locks ≡ w.locks
    → (hs : List Holder) → InTime hs v.now
    → All (Held w) hs
    → All (Held v) hs
wait-Held w v same [] t h = tt
wait-Held w v same (g ∷ hs) t (((l, found, until), _), more) =
    (((l, ground (arith, same, found), until), t.0), wait-Held w v same hs t.1 more)

Held-InTime : (w : Memory) (hs : List Holder) → All (Held w) hs → InTime hs w.now
Held-InTime w hs h = All-mono (λ g held. held.1) hs h

-- A key that is not in the map is nobody's.
free-Other :
    (w : Memory) (key : String)
    → has key w.locks ≡ false
    → (hs : List Holder) → All (Held w) hs
    → All (Other key) hs
free-Other w key free hs h =
    All-mono
      (λ g held. elim (Bool-cases (str_eq key g.key)) [
        | inr apart ↦ apart
        | inl same ↦
            let (l, found, _) = held.0 in
            ground (arith, eq_iff key g.key, lookup-has g.key w.locks l, found)
      ])
      hs h

late-Other :
    (w : Memory) (key : String)
    → ((l : Lock) → lookup key w.locks ≡ some l → l.expires_at ≤ w.now)
    → (hs : List Holder) → All (Held w) hs
    → All (Other key) hs
late-Other w key late hs h =
    All-mono
      (λ g held. elim (Bool-cases (str_eq key g.key)) [
        | inr apart ↦ apart
        | inl same ↦
            (let (l, found, until) = held.0 in
              let one : key ≡ g.key = (eq_iff key g.key).0 same in
              let mine : lookup key w.locks ≡ some l = rw one found in
              let over = late l mine in let time = held.1 in ground arith)
      ])
      hs h

Step-IsExclusive :
    (test : String → String → Bool) {s t : System} → Step test s t → IsExclusive s → IsExclusive t
Step-IsExclusive test {s} (acquire client key options w done alive) inv =
    let ttl : ℕ = default options.ttl 5000 in
    let l : Lock = locked s.shared.now ttl in
    elim (acquire_lock-Memory test key options s.shared) [
      | inr (_, failed) ↦ ground (arith, failed)
      | inl (free, _, taken) ↦
          let now : w ≡ record s.shared { locks = Map.set key l s.shared.locks } =
            ground (arith, taken) in
          let apart = free-Other s.shared key free s.holders inv.held in
          record {
            held = (
              (
                (
                  l,
                  ground (arith, now, lookup-set key key l s.shared.locks, str_eq_refl key),
                  refl,
                ),
                ground (arith, now),
              ),
              keep-Held key s.shared w
                  (λ j other. ground (arith, now, lookup-set j key l s.shared.locks)) s.holders
                  apart (rw now (Held-InTime s.shared s.holders inv.held)) inv.held,
            );
            apart = (apart, inv.apart);
          }
    ]
Step-IsExclusive test {s} (refused key options w failed time) inv =
    elim (acquire_lock-Memory test key options s.shared) [
      | inl (_, _, taken) ↦ ground (arith, taken)
      | inr (_, slept) ↦ record {
        held = wait-Held s.shared w (ground (arith, slept)) s.holders time inv.held;
        apart = inv.apart;
      }
    ]
Step-IsExclusive test {s} (release i h freed w mine done) inv =
    let now : w ≡ record s.shared { locks = Map.delete h.key s.shared.locks } =
      ground (arith, release_lock-Memory test h.key s.shared) in
    record {
      held =
          keep-Held h.key s.shared w
            (λ j other. ground (arith, now, lookup-delete j h.key s.shared.locks))
            (without i s.holders) (others i s.holders h inv.apart mine)
            (rw now (
              Held-InTime s.shared (without i s.holders)
                (All-without (Held s.shared) i s.holders inv.held)))
            (All-without (Held s.shared) i s.holders inv.held);
      apart = Apart-without i s.holders inv.apart;
    }
Step-IsExclusive test {s} (look key answer w done) inv = elim (is_locked-Memory test key s.shared) [
  | inl (_, _, _, same) ↦
      let now : w ≡ s.shared = ground (arith, same) in
      record { held = rw now inv.held; apart = inv.apart }
  | inr (late, gone) ↦
      let now : w ≡ record s.shared { locks = Map.delete key s.shared.locks } =
        ground (arith, gone) in
      record {
        held =
            keep-Held key s.shared w
              (λ j other. ground (arith, now, lookup-delete j key s.shared.locks)) s.holders
              (late-Other s.shared key late s.holders inv.held)
              (rw now (Held-InTime s.shared s.holders inv.held)) inv.held;
        apart = inv.apart;
      }
]
Step-IsExclusive test {s} (pass later time) inv = record {
  held = wait-Held s.shared (record s.shared { now = later }) refl s.holders time inv.held;
  apart = inv.apart;
}

-- Mutual exclusion: when clients start without locks, on whatever map and at whatever time, and
-- acquire, test and release locks in any order, each releasing only what it holds and before the
-- lock's time is over, then no two of them ever hold the same key, and the lock of each is in the
-- map until it is released.
pub Reach-IsExclusive :
    (test : String → String → Bool) (w : Memory) {t : System}
    → Reach test (record { shared = w; holders = [] }) t
    → IsExclusive t
Reach-IsExclusive test w here = record { held = tt; apart = tt }
Reach-IsExclusive test w (next r step) = Step-IsExclusive test step (Reach-IsExclusive test w r)
