-- ===== src/Service.antt =====
-- src/infrastructure/services: the services that the use cases call.
pub mod RedisCall
pub mod Products
pub mod Users
pub mod Orders
pub mod Payments
pub mod Coupons
pub mod Issuing
pub mod CouponQueries
pub mod Auth
