-- ===== src/Handler.antt =====
-- src/infrastructure/event-handlers, and the event loop's call of a handler.
pub mod Restore
pub mod OrderFailed
pub mod PaymentFailed
pub mod OrderCreated
