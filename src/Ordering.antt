-- ===== src/Ordering.antt =====
-- What the creation of an order does, on the way and as a whole.
pub mod CouponUse
pub mod Placed
pub mod Created
pub mod Failed
pub mod Timeout
pub mod Returns
