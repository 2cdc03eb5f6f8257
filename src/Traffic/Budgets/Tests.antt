-- ===== src/Traffic/Budgets/Tests.antt =====
-- The theorems on budgets at concrete inputs.
use hysteria2_panel.Prelude.{
  ◌≡◌, refl, ◌+◌, String, true, none, some, List, [], ◌∷◌, map, ok, arith, select, row_count,
  sum_where, leb, if◌then◌else◌, str_eq, hex_text, utc_date, date_of, day_index, month_index,
  days_of, month_length,
}
use hysteria2_panel.Nodes.UsageRows.{DailyTraffic, Budget, local}
use hysteria2_panel.Nodes.Database.{Database, empty_database}
use hysteria2_panel.Nodes.Kicks.{distinct, contains}
use hysteria2_panel.Traffic.{Entry, record_usage}
use hysteria2_panel.Traffic.Batches.{after}
use hysteria2_panel.Traffic.Budgets.{
  BudgetChange, BudgetResult, is_day_in, budget_period, reset_at, list_origin_budgets, write_budget,
  origin_budget, is_budget_origin, all_budget_origins,
}
use hysteria2_panel.Traffic.Budgets.Periods.{today_is_in_period}
use hysteria2_panel.Traffic.Budgets.Listing.{listing_is_complete}
use hysteria2_panel.Traffic.Budgets.Late.{late_traffic_counts_once}

-- 31 January 2026, with a reset on the 31st of each month
today_is_in_period_example :
    is_day_in (budget_period 1769860800 31) (day_index (utc_date 1769860800)) ≡ true
today_is_in_period_example = today_is_in_period 1769860800 31

abbrev origin : String
origin = "local:0123456789abcdef0123456789abcdef"

abbrev yesterday : DailyTraffic
yesterday = record {
  origin_id = origin;
  usage_date = day_index (utc_date 1769774400);
  tx_bytes = 500;
  rx_bytes = 100;
  updated_at = 1769774400;
}

abbrev database : Database
database = record empty_database { daily = yesterday ∷ [] }

listing_is_complete_example :
    list_origin_budgets 1769860800 (origin ∷ []) database
    ≡ ok (map (origin_budget 1769860800 database database.daily) (origin ∷ []))
unfolding all_budget_origins is_budget_origin after hex_text distinct contains str_eq
listing_is_complete_example =
    listing_is_complete 1769860800 database (origin ∷ []) (omega arith) refl refl

abbrev change : BudgetChange
change = record {
  origin_id = origin;
  limit_bytes = 10000;
  warning_percent = 80;
  actor = "admin";
  updated_at = 1769860800;
  manual_used_bytes = some 2000;
  reset_day = some 15;
}

-- What `set_origin_budget` answers
abbrev answer : List BudgetResult
answer = origin_budget 1769860800 (write_budget change database) database.daily origin ∷ []

-- Ten minutes later, 300 bytes of the origin have been recorded.
abbrev later : Database
later = record (write_budget change database) { daily = record yesterday { tx_bytes = 800 } ∷ [] }

abbrev budget : Budget
budget = record {
  origin_id = origin;
  limit_bytes = 10000;
  warning_percent = 80;
  reset_day = 15;
  manual_used_bytes = 2000;
  baseline_total_bytes = 600;
  baseline_at = some 1769860800;
  updated_by = "admin";
  updated_at = 1769860800;
}

-- Traffic of the day before, which the amount set by hand has counted
abbrev entry : Entry
entry = record {
  origin_id = origin;
  kind = local;
  origin_name = "panel";
  node_id = none;
  user = none;
  tx = 70;
  rx = 30;
  now = 1769861000;
  account_traffic = true;
  observed_at = 1769774500;
}

late_traffic_counts_once_example :
    (origin_budget 1769861400
      (record_usage entry (record database { budgets = budget ∷ [] }))
      (record_usage entry (record database { budgets = budget ∷ [] })).daily
      origin).used_bytes
    ≡ (origin_budget 1769861400
        (record database { budgets = budget ∷ [] })
        database.daily
        origin).used_bytes
      + (if leb 1769774500 1769860800 then 0 else 70 + 30)
unfolding budget_period utc_date date_of day_index month_index reset_at month_length select
    row_count days_of str_eq sum_where
late_traffic_counts_once_example =
    late_traffic_counts_once entry 1769861400 1769860800 (record database { budgets = budget ∷ [] })
      budget refl refl refl (omega arith) (omega arith)
