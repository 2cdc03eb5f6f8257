-- ===== src/Nodes/Tests/Draining.antt =====
-- The theorems on nodes over their budget at concrete inputs.
use hysteria2_panel.Prelude.{
  ℕ, ◌≡◌, refl, String, true, some, none, [], ◌∷◌, ok, select, select_all, update, row_count,
  sum_where, str_eq, hex_text, append, version, version_ge, utc_date, date_of, day_index,
  month_index, month_length, days_of,
}
use hysteria2_panel.Nodes.Row.{Node}
use hysteria2_panel.Nodes.UsageRows.{Budget, DailyTraffic, Origin, remote}
use hysteria2_panel.Nodes.Database.{Database, insert_command}
use hysteria2_panel.Nodes.Kicks.{distinct, contains}
use hysteria2_panel.Nodes.Invariant.{Consistent}
use hysteria2_panel.Nodes.BudgetDrain.{turns, turn, reconcile_node_budgets}
use hysteria2_panel.Nodes.BudgetDrain.Due.{stop_is_due}
use hysteria2_panel.Nodes.BudgetDrain.Stops.{node_budget, idle_stop_is_due}
use hysteria2_panel.Traffic.Batches.{after}
use hysteria2_panel.Traffic.Budgets.{
  budget_period, reset_at, list_origin_budgets, budgets_of, origin_budget, all_budget_origins,
  is_budget_origin, used_bytes_of, cycle_usage, budget_result, first_day, next_day,
}
use hysteria2_panel.Nodes.Requests.{commit}
use hysteria2_panel.Nodes.Tests.Scenario.{node, snapshot, draining_node, draining_database}

-- A node that has drained for its budget since 100000 and is idle since 199000 seconds
abbrev spent_node : Node
spent_node = record draining_node {
  agent_version = some "0.39.19";
  lifecycle_changed_by = some "system:budget95";
  last_heartbeat_at = some 199990;
  budget_dns_confirmed_at = some 100000;
  budget_idle_since = some 199000;
  budget_checked_at = some 199970;
}

abbrev spent_origin : Origin
spent_origin = record {
  origin_id = "node:00000000000000000000000000000001";
  kind = remote;
  node_id = some node;
  display_name = "tokyo";
  created_at = 1000;
  last_traffic_at = some 190000;
}

abbrev spent_budget : Budget
spent_budget = record {
  origin_id = "node:00000000000000000000000000000001";
  limit_bytes = 1000;
  warning_percent = 80;
  reset_day = 1;
  manual_used_bytes = 0;
  baseline_total_bytes = 0;
  baseline_at = none;
  updated_by = "admin";
  updated_at = 1000;
}

-- 960 bytes on 3 January 1970
abbrev spent_day : DailyTraffic
spent_day = record {
  origin_id = "node:00000000000000000000000000000001";
  usage_date = 756483;
  tx_bytes = 900;
  rx_bytes = 60;
  updated_at = 190000;
}

abbrev spent_database : Database
spent_database = record draining_database {
  nodes = spent_node ∷ [];
  snapshots =
      record snapshot { observed_at = 199980; traffic_acked_at = 199980; accepted_at = 199980 }
      ∷ [];
  origins = spent_origin ∷ [];
  budgets = spent_budget ∷ [];
  daily = spent_day ∷ [];
}

spent_database-Consistent : Consistent spent_database
unfolding row_count
spent_database-Consistent = record {
  node_key = (refl, tt);
  command_key = tt;
  serving = (record { ready = λ e. refl; admitted = λ e. refl }, tt);
  awaited = (
    record { stop = λ e. absurd (cc); start = λ e. absurd (cc); uninstall = λ e. absurd (cc) },
    tt,
  );
  enrollment_key = tt;
  enrolled = tt;
}

abbrev command_id : ℕ → String
command_id n = "command"

abbrev reconciled : Database
reconciled = commit spent_database (reconcile_node_budgets command_id 200000 "local" spent_database)

stop_is_asked :
    reconcile_node_budgets command_id 200000 "local" spent_database ≡ ok ((0, 1), reconciled)
unfolding reconcile_node_budgets turns turn list_origin_budgets all_budget_origins is_budget_origin
    after hex_text distinct contains budgets_of first_day next_day origin_budget budget_result
    used_bytes_of cycle_usage budget_period reset_at month_length utc_date date_of day_index
    month_index days_of append select select_all update row_count sum_where str_eq version
    insert_command version_ge
stop_is_asked = refl

abbrev row_after : Node
row_after = elim reconciled.nodes [ [] ↦ spent_node | n ∷ _ ↦ n ]

idle_stop_is_due_example :
    stop_is_due 200000 spent_node (node_budget 200000 spent_database spent_node) spent_database
    ≡ true
unfolding reconcile_node_budgets turns turn list_origin_budgets all_budget_origins is_budget_origin
    after hex_text distinct contains budgets_of first_day next_day origin_budget budget_result
    used_bytes_of cycle_usage budget_period reset_at month_length utc_date date_of day_index
    month_index days_of append select select_all update row_count sum_where str_eq version
    insert_command version_ge
idle_stop_is_due_example =
    idle_stop_is_due command_id 200000 spent_database "local" (0, 1) reconciled
      spent_database-Consistent stop_is_asked node spent_node row_after refl refl refl refl
