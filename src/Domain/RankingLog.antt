-- ===== src/Domain/RankingLog.antt =====
-- src/domain/entities/ranking-log.entity.ts
use hanghae_plus_backend.Prelude.{ℕ, suc, String}
use hanghae_plus_backend.Prelude.Int.{ℤ}

pub record RankingLog : Type 0 where
  pub id : ℕ
  pub user_id : ℕ
  pub coupon_type : String
  pub rank : ℤ
  pub timestamp : ℕ
  pub status : String
  pub retry_count : ℕ

-- `RankingLog.create`, at the time `now`.
abbrev pub create : ℕ → ℕ → String → ℤ → RankingLog
create now user_id coupon_type rank = record {
  id = 0;
  user_id = user_id;
  coupon_type = coupon_type;
  rank = rank;
  timestamp = now;
  status = "ISSUED";
  retry_count = 0;
}

unfoldable pub mark_as_failed : RankingLog → RankingLog
mark_as_failed log = record log { status = "FAILED" }

unfoldable pub increment_retry_count : RankingLog → RankingLog
increment_retry_count log = record log { retry_count = suc log.retry_count }
