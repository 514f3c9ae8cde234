-- ===== src/Tests/Payments.antt =====
-- The theorems on payments, points and the bus, in the shop of the examples.
use hanghae_plus_backend.Prelude.{◌≡◌, refl, some, [], ◌∷◌}
use hanghae_plus_backend.Prelude.Int.{pos, ◌+ℤ◌, ◌≤ℤ◌}
use hanghae_plus_backend.Failure.{err, plain, bad, order_processed}
use hanghae_plus_backend.App.{State, for_each}
use hanghae_plus_backend.Database.Entity.{OrderEntity, UserEntity}
use hanghae_plus_backend.Repository.Contract.Order.{order}
use hanghae_plus_backend.Service.Users
use hanghae_plus_backend.UseCase.ProcessPayment
use hanghae_plus_backend.UseCase.ProcessPayment.{completed_event}
use hanghae_plus_backend.Event.{Event}
use hanghae_plus_backend.EventBus.{publish, on_module_init}
use hanghae_plus_backend.Bus.Wiring.{on_module_init-unheard}
use hanghae_plus_backend.Account.Change.{HasNow, charge_points-HasNow}
use hanghae_plus_backend.Paying.Paid.{Paid, process_payment-Paid}
use hanghae_plus_backend.Domain.Payment.{Payment}
use hanghae_plus_backend.Paying.Refused.{Refused}
use hanghae_plus_backend.Paying.Once.{pass, charge_request, pay_request, now, process_payment-once}
use hanghae_plus_backend.UseCase.Points
use hanghae_plus_backend.Tests.Memory.{in_memory}
use hanghae_plus_backend.Tests.Shop.{shop, tray, billed, receipt, pay_tray}
use hanghae_plus_backend.Tests.Runs.{ran, paid, kim_with, charge_5000, charged}

abbrev settled : State in_memory
settled = (ProcessPayment.execute pay_tray billed).1

process_payment-Paid_example : (e : OrderEntity) × (e.id ≡ 1) × Paid e billed settled receipt
process_payment-Paid_example =
    process_payment-Paid pay_tray billed (ran (ProcessPayment.execute pay_tray) billed paid)

-- Paid, then a second payment refused, points charged, and time passed.
abbrev again : State in_memory
again = record (Points.execute 1 charge_5000 (ProcessPayment.execute pay_tray settled).1).1 {
  now = 1700000009000;
}

process_payment-once_example :
    (e : OrderEntity) × (order again 1 ≡ some e)
    × ((ProcessPayment.execute pay_tray again).0 ≡ err (bad order_processed))
    × Refused e (plain order_processed) again (ProcessPayment.execute pay_tray again).1
process_payment-once_example =
    process_payment-once pay_tray billed (ran (ProcessPayment.execute pay_tray) billed paid)
      (pass 1700000009000 (charge_request 1 charge_5000 (pay_request pay_tray now)))

charge_points-HasNow_example :
    (u : UserEntity) × (pos 0 ≤ℤ pos 5000)
    × ((kim_with (pos 105000)).points ≡ u.points +ℤ pos 5000)
    × HasNow 1 u (u.points +ℤ pos 5000) shop (Users.charge_points 1 charge_5000 shop).1
charge_points-HasNow_example =
    charge_points-HasNow 1 charge_5000 shop (ran (Users.charge_points 1 charge_5000) shop charged)

abbrev news : Event
news = completed_event 1700000000000 tray

on_module_init-unheard_example :
    (for_each (news ∷ news ∷ []) publish (on_module_init shop).1).1.queued ≡ []
on_module_init-unheard_example = on_module_init-unheard (news ∷ news ∷ []) shop refl
