-- ===== src/Repository/Payment.antt =====
-- src/infrastructure/repositories/payment.repository.ts
use mathlib.Core.Option
use hanghae_plus_backend.Prelude.{ℕ, Option, none, some, List, map, ◌==◌, if◌then◌else◌}
use hanghae_plus_backend.App.{Action, pure, raise, gets, ◌>>=◌}
use hanghae_plus_backend.Database.Env.{Env}
use hanghae_plus_backend.Failure.{ok, plain, payment_missing}
use hanghae_plus_backend.Domain.Payment.{Payment}
use hanghae_plus_backend.Database.Entity.{PaymentEntity}
use hanghae_plus_backend.Repository.Row.{commit}

-- `new Payment(…)` of a row; the version is not taken over.
abbrev pub to_payment : PaymentEntity → Payment
to_payment e = record {
  id = e.id;
  order_id = e.order_id;
  user_id = e.user_id;
  total_amount = e.total_amount;
  discount_amount = e.discount_amount;
  final_amount = e.final_amount;
  coupon_used = e.coupon_used;
  status = e.status;
  paid_at = e.paid_at;
  version = 0;
}

-- The columns of a payment, under the key `id`.
abbrev pub of_payment : ℕ → Payment → PaymentEntity
of_payment id p = record {
  id = id;
  order_id = p.order_id;
  user_id = p.user_id;
  total_amount = p.total_amount;
  discount_amount = p.discount_amount;
  final_amount = p.final_amount;
  coupon_used = p.coupon_used;
  status = p.status;
  paid_at = p.paid_at;
}

module _ {env : Env} where
  unfoldable pub find_by_id : ℕ → Action env (Option Payment)
  find_by_id id s = (ok (Option.map to_payment (env.payments.find_one s.payments id)), s)

  unfoldable pub find_by_order_id : ℕ → Action env (List Payment)
  find_by_order_id order_id s =
      (ok (map to_payment (env.payments.find s.payments (λ e. e.order_id == order_id))), s)

  unfoldable pub find_by_user_id : ℕ → Action env (List Payment)
  find_by_user_id user_id s =
      (ok (map to_payment (env.payments.find s.payments (λ e. e.user_id == user_id))), s)

  save_entity : PaymentEntity → Action env Payment
  save_entity e = do
    saved ← (λ s. commit (env.payments.save s.payments e) (λ rows. record s { payments = rows }) s)
    pure (to_payment saved)

  -- An existing row takes over every column.
  update_entity : Payment → Option PaymentEntity → Action env Payment
  unfolding save_entity
  update_entity p none = raise (plain payment_missing)
  update_entity p (some entity) = save_entity (of_payment entity.id p)

  unfoldable pub save : Payment → Action env Payment
  unfolding update_entity save_entity
  save p =
      if p.id == 0
      then save_entity (of_payment 0 p)
      else (gets (λ s. env.payments.find_one s.payments p.id) >>= update_entity p)
