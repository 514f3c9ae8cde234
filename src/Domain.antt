-- ===== src/Domain.antt =====
-- src/domain/entities: the entities and their methods. A method that assigns to a private field
-- returns the new entity, and one that may throw returns a `Result`.
pub mod User
pub mod Product
pub mod Coupon
pub mod Order
pub mod Payment
pub mod Points
pub mod Stock
pub mod Discount
pub mod PaymentStatus
pub mod RankingLog
pub mod ProductSales
