-- ===== src/Repository.antt =====
-- src/infrastructure/repositories: the repositories over TypeORM. The `@DbOptimisticLock` and
-- `@DbPessimisticLock` decorators on their methods set metadata, which nothing reads there.
mod Row
pub mod User
pub mod Product
pub mod Coupon
pub mod Order
pub mod Payment
pub mod Contract
pub use Row.{commit}
