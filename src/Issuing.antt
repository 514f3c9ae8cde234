-- ===== src/Issuing.antt =====
-- What issuing a coupon does.
pub mod Calls
pub mod Stock
pub mod Bound
pub mod Issued
pub mod Once
pub mod Initial
pub mod Status
pub mod Messages
