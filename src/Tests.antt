-- ===== src/Tests.antt =====
-- The theorems applied to concrete inputs.
pub mod Stored
pub mod Memory
pub mod Shop
pub mod Runs
pub mod Orders
pub mod Payments
pub mod Entities
pub mod Coupons
pub mod Locks
pub mod Interceptors
pub mod Caches
pub mod Accounts
