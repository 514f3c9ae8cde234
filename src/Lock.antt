-- ===== src/Lock.antt =====
-- The distributed lock: src/infrastructure/services/redis-distributed-lock.service.ts and
-- src/application/interfaces/services/redis-distributed-lock-service.interface.ts.
pub mod Interface
pub mod Redis
pub mod Service
pub mod Memory
pub mod Acquire
pub mod Release
pub mod Clear
pub mod Clients
pub mod Exclusion
