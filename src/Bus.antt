-- ===== src/Bus.antt =====
-- Which handlers an event reaches.
pub mod Delivery
pub mod Wiring
