-- ===== src/RedisService.antt =====
-- src/infrastructure/services/redis.service.ts without a server (`NODE_ENV` is `test` or `REDIS_HOST`
-- is not set): the map it keeps in memory, its commands, and what they do.
pub mod Map
pub mod Value
pub mod Commands
pub mod SortedSet
pub mod Scores
pub mod Refines
pub mod Sorted
pub mod Rank
pub mod Expiry
