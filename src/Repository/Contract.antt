-- ===== src/Repository/Contract.antt =====
-- What each repository's `save` does to its table and to nothing else, in the cases of a row that
-- exists and of a new one.
pub mod Product
pub mod User
pub mod Coupon
pub mod Order
pub mod Payment
