-- ===== src/Interceptor.antt =====
-- The interceptors of src/common/interceptors: what each does around a handler, and the options that the
-- decorators of src/common/decorators attach.
pub mod DataSource
pub mod Options
pub mod Transaction
pub mod DbPessimistic
pub mod DbOptimistic
pub mod Trace
pub mod Transacted
pub mod Closed
pub mod Retried
pub mod Optimistic
pub mod Pessimistic
pub mod Guard
pub mod Guarded
pub mod Nested
pub mod Polling
