-- ===== src/Domain/PaymentStatus.antt =====
-- The life of a payment as a relation of steps (src/domain/entities/payment.entity.ts).
use hanghae_plus_backend.Prelude.{ℕ, ◌≡◌, ◌≢◌, refl, ap, ◌∙◌, String, arith, eq_iff}
use hanghae_plus_backend.Failure.{ok, err, plain, payment_processed}
use hanghae_plus_backend.Domain.Payment.{Payment, process_payment, cancel_payment}

-- A call of `processPayment` that returns, or of `cancelPayment`.
pub data Step (p : Payment) : Payment → Type 0 where
  process : {q : Payment} (now : ℕ) → process_payment now p ≡ ok q → Step p q
  cancel : {q : Payment} → q ≡ cancel_payment p → Step p q

pub data Reach (p : Payment) : Payment → Type 0 where
  here : Reach p p
  next : {q r : Payment} → Reach p q → Step q r → Reach p r

abbrev IsPending : Payment → Type 0
IsPending p = p.status ≡ "PENDING"

process-was-IsPending :
    (now : ℕ) (p : Payment) {q : Payment}
    → process_payment now p ≡ ok q
    → IsPending p × (q.status ≡ "SUCCESS")
unfolding process_payment
process-was-IsPending now p h = ground (arith, eq_iff p.status "PENDING")

success≢pending : {s : String} → s ≡ "SUCCESS" → s ≢ "PENDING"
success≢pending {s} h k = ground (arith, eq_iff "SUCCESS" "PENDING")

Step-not-IsPending : {p q : Payment} → Step p q → ¬ IsPending p → ¬ IsPending q
unfolding cancel_payment
Step-not-IsPending {p} (process now h) n = absurd (n (process-was-IsPending now p h).0)
Step-not-IsPending {p} {q} (cancel e) n = ground (arith, eq_iff "CANCELLED" "PENDING")

Reach-not-IsPending : {p q : Payment} → ¬ IsPending p → Reach p q → ¬ IsPending q
Reach-not-IsPending n here = n
Reach-not-IsPending n (next r s) = Step-not-IsPending s (Reach-not-IsPending n r)

-- A payment is processed once: after a `processPayment` that returns, and any further calls, the
-- next `processPayment` throws the error of a processed payment.
pub process_payment-Reach :
    (now later : ℕ) (p : Payment) {q r : Payment}
    → process_payment now p ≡ ok q
    → Reach q r
    → process_payment later r ≡ err (plain payment_processed)
unfolding process_payment
process_payment-Reach now later p {q} {r} h reach =
    let fresh : ¬ IsPending q = success≢pending (process-was-IsPending now p h).1 in
    let done : ¬ IsPending r = Reach-not-IsPending fresh reach in
    ground (arith, eq_iff r.status "PENDING")

Step-cancelled : {p q : Payment} → p.status ≡ "CANCELLED" → Step p q → q ≡ p
unfolding cancel_payment process_payment
Step-cancelled {p} e (process now h) =
    ground (arith, eq_iff p.status "PENDING", eq_iff "CANCELLED" "PENDING")
Step-cancelled {p} e (cancel f) =
    ground (arith, eq_iff p.status "SUCCESS", eq_iff "CANCELLED" "SUCCESS")

-- Cancelling is final: no sequence of calls changes a cancelled payment.
pub Reach-cancelled : {p q : Payment} → p.status ≡ "CANCELLED" → Reach p q → q ≡ p
Reach-cancelled e here = refl
Reach-cancelled e (next r s) =
    let same = Reach-cancelled e r in Step-cancelled (ap (λ x. x.status) same ∙ e) s ∙ same
