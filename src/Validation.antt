-- ===== src/Validation.antt =====
-- src/domain/services: the validation services. A validation is a `Check`: it throws, or returns
-- nothing.
pub mod User
pub mod Product
pub mod Coupon
pub mod Order
pub mod Payment
pub mod Points
pub mod Issuance
pub mod Orders
pub mod Auth
