-- ===== src/UseCase.antt =====
-- src/application/use-cases. `@Transactional` and `@OptimisticLock` on `execute` set metadata of a
-- method that is no route handler, and the interceptors read that of route handlers.
pub mod CreateOrder
pub mod ProcessPayment
pub mod Points
pub mod Issue
pub mod Queries
pub mod TopSellers
pub mod AsyncIssue
pub mod Auth
