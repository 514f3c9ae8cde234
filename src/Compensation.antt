-- ===== src/Compensation.antt =====
-- What the compensating handlers give back.
pub mod Stock
pub mod Effect
