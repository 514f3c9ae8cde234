-- ===== src/Ranking.antt =====
-- The ranking of products by sales: what
-- src/application/use-cases/products/get-top-sellers.use-case.ts answers, and what its cron job
-- makes of the days.
pub mod Sorted
pub mod Top
pub mod Days
