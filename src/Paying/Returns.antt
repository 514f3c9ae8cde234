-- ===== src/Paying/Returns.antt =====
-- `execute` of src/application/use-cases/payments/process-payment.use-case.ts returns where it is
-- meant to, on tables that accept every save.
use hanghae_plus_backend.Database.Env.{Env}
use hanghae_plus_backend.Database.Accepts.{Accepts}
use hanghae_plus_backend.Domain.User.{User}
use hanghae_plus_backend.Domain.Order.{Order}
use hanghae_plus_backend.Domain.Payment.{Payment}
use hanghae_plus_backend.Domain.Payment
use hanghae_plus_backend.Repository.User as UserRows
use hanghae_plus_backend.Repository.Order as OrderRows
use hanghae_plus_backend.Repository.Payment as PaymentRows
use hanghae_plus_backend.Service.Users
use hanghae_plus_backend.Service.Orders
use hanghae_plus_backend.Service.Payments
use hanghae_plus_backend.Paying.Paid.{Paid}
