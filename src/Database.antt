-- ===== src/Database.antt =====
-- What the program stores, and the third-party parts that store it.
pub mod Entity
pub mod TypeOrm
pub mod Redis
pub mod Env
pub mod Accepts
