-- ===== src/Tests/Entities.antt =====
-- The theorems on the entities and the validations, at concrete objects.
use hanghae_plus_backend.Prelude.{◌≡◌, ◌≢◌, ◌↔◌, refl, none, [], ◌∷◌, All}
use hanghae_plus_backend.Prelude.Int.{pos, ◌≤ℤ◌}
use hanghae_plus_backend.Failure.{ok, err, plain, payment_processed}
use hanghae_plus_backend.Domain.Product.{Product}
use hanghae_plus_backend.Domain.Payment.{Payment, process_payment, cancel_payment}
use hanghae_plus_backend.Domain.PaymentStatus.{Reach, here, next, cancel, process_payment-Reach}
use hanghae_plus_backend.Validation.Order.{validate_order}
use hanghae_plus_backend.Validation.Orders.{IsOrderable, InStock, validate_order-eq-ok}
use hanghae_plus_backend.Repository.Product.{to_product}
use hanghae_plus_backend.Tests.Shop.{mug, two_mugs, receipt}
use hanghae_plus_backend.Tests.Runs.{kim_with}

abbrev open_receipt : Payment
open_receipt = record receipt { status = "PENDING" }

abbrev cancelled : Payment
cancelled = record receipt { status = "CANCELLED" }

processed : process_payment 1700000000000 open_receipt ≡ ok receipt
unfolding process_payment
processed = refl

cancelled_once : Reach receipt cancelled
unfolding cancel_payment
cancelled_once = next here (cancel refl)

process_payment-Reach_example :
    process_payment 1700000009000 cancelled ≡ err (plain payment_processed)
process_payment-Reach_example =
    process_payment-Reach 1700000000000 1700000009000 open_receipt processed cancelled_once

abbrev eight_mugs : Product
eight_mugs = record (to_product mug) { stock = pos 8 }

validate_order-eq-ok_example :
    (validate_order two_mugs.items
        (eight_mugs ∷ [])
        (kim_with (pos 100000))
        none
        (pos 10000)
        (pos 10000)
      ≡ ok tt)
    ↔ ((two_mugs.items ≢ [])
        × All IsOrderable two_mugs.items
        × InStock two_mugs.items (eight_mugs ∷ [])
        × (pos 10000 ≤ℤ pos 100000)
        × (pos 1 ≤ℤ pos 10000)
        × (pos 0 ≤ℤ pos 10000))
validate_order-eq-ok_example =
    validate_order-eq-ok two_mugs.items (eight_mugs ∷ []) (kim_with (pos 100000)) none (pos 10000)
      (pos 10000)
