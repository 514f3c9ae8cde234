-- ===== src/Account.antt =====
-- What charging and using points does to the users' rows.
pub mod Change
pub mod Errors
