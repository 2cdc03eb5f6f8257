-- ===== src/Nodes/UsageRows.antt =====
-- The rows of the tables that count traffic: `usage_origins`, `usage_origin_users`,
-- `origin_traffic_daily`, `origin_traffic_budgets`, `user_traffic_hourly`,
-- `applied_traffic_batches`, `node_traffic_batches` and `node_usage_checkpoints`, as
-- `Database.initialize` of hysteria2_panel.py creates them. A month "%Y-%m" and a day "%Y-%m-%d" are
-- the numbers of Prelude/Calendar, whose order is that of the texts.
use hysteria2_panel.Prelude.{ℕ, String, Option}

pub data OriginKind : Type 0 where
  local remote legacy : OriginKind

pub record Origin : Type 0 where
  pub origin_id : String
  pub kind : OriginKind
  pub node_id : Option String
  pub display_name : String
  pub created_at : ℕ
  pub last_traffic_at : Option ℕ

pub record OriginUser : Type 0 where
  pub origin_id : String
  pub user_name : String
  pub tx_bytes : ℕ
  pub rx_bytes : ℕ
  pub updated_at : ℕ

pub record DailyTraffic : Type 0 where
  pub origin_id : String
  pub usage_date : ℕ
  pub tx_bytes : ℕ
  pub rx_bytes : ℕ
  pub updated_at : ℕ

pub record Budget : Type 0 where
  pub origin_id : String
  pub limit_bytes : ℕ
  pub warning_percent : ℕ
  pub reset_day : ℕ
  pub manual_used_bytes : ℕ
  pub baseline_total_bytes : ℕ
  pub baseline_at : Option ℕ
  pub updated_by : String
  pub updated_at : ℕ

pub record HourlyTraffic : Type 0 where
  pub user_id : ℕ
  pub usage_day : ℕ
  pub usage_hour : ℕ
  pub tx_bytes : ℕ
  pub rx_bytes : ℕ

-- The order of the rowids is that of the insertions; a deletion leaves them as they are.
pub record AppliedBatch : Type 0 where
  pub rowid : ℕ
  pub batch_id : String
  pub applied_at : ℕ

pub record NodeBatch : Type 0 where
  pub node_id : String
  pub batch_id : String
  pub unknown_users : ℕ
  pub applied_at : ℕ

pub record Checkpoint : Type 0 where
  pub node_id : String
  pub traffic_observed_at : ℕ
  pub online_sequence : Option ℕ
