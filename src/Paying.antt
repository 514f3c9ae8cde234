-- ===== src/Paying.antt =====
-- What the payment of an order does.
pub mod Steps
pub mod Paid
pub mod Refused
pub mod Returns
pub mod Kept
pub mod Stays
pub mod Once
