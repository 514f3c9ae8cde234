-- ===== src/Caching.antt =====
-- What is read through the caches: that points are read as they are, and products as they were.
pub mod Points
pub mod Changed
pub mod Products
