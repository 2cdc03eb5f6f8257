-- ===== src/Traffic/Budgets.antt =====
-- The budgets of origins: `set_origin_budget`, `get_origin_budget` and `list_origin_budgets` of
-- `class Database` in hysteria2_panel.py, with `budget_period` and `budget_result` of
-- hy2panel/budgets.py. A `datetime` is its date; the percentage that is shown is left out.
pub mod Periods
pub mod Listing
pub mod ByHand
pub mod Late
mod Tests
use hysteria2_panel.Prelude.{
  ℕ, ◌+◌, ◌-◌, ◌*◌, ◌/◌, ◌%◌, min, max, String, Bool, true, ◌&&◌, ◌||◌, Option, none, some, List,
  [], ◌∷◌, map, maybe, select, sum_where, select_all, row_count, length, ltb, leb, ◌==◌,
  if◌then◌else◌, str_eq, name_text, Result, ◌>>◌, guard, ok, ◌>>=◌, Date, utc_date, days_of,
  month_index, day_index, month_length,
}
use hysteria2_panel.Nodes.UsageRows.{DailyTraffic, Budget}
use hysteria2_panel.Nodes.Database.{Database, Error, Tx, node_is}
use hysteria2_panel.Traffic.{max_integer, upsert}
use hysteria2_panel.Traffic.Batches.{is_id, after}
use hysteria2_panel.Nodes.Kicks.{distinct}

-- `_reset_at`
unfoldable pub reset_at : ℕ → ℕ → ℕ → Date
unfolding month_length
reset_at year month reset_day = (year, month, min reset_day (month_length year month))

-- `_reset_at` of a month by its number
abbrev pub month_reset : ℕ → ℕ → Date
month_reset index reset_day = reset_at (index / 12) (index % 12 + 1) reset_day

abbrev pub period_of : ℕ → Date → Date × Date
period_of reset_day (year, month, day) =
    let this_reset = reset_at year month reset_day in
    let index = month_index (year, month, day) in
    if leb (day_index this_reset) (day_index (year, month, day))
    then (this_reset, month_reset (index + 1) reset_day)
    else (month_reset (index - 1) reset_day, this_reset)

unfoldable pub budget_period : ℕ → ℕ → Date × Date
unfolding utc_date day_index month_index reset_at
budget_period now reset_day = period_of reset_day (utc_date now)

-- `start <= usage_date < end`, as texts
abbrev pub is_day_in : Date × Date → ℕ → Bool
is_day_in period date = leb (day_index (period.0)) date && ltb date (day_index (period.1))

-- `int(period_start.timestamp()) <= at < int(period_end.timestamp())`
abbrev pub is_time_in : Date × Date → ℕ → Bool
is_time_in period at = leb (days_of (period.0) * 86400) at && ltb at (days_of (period.1) * 86400)

abbrev pub bytes_of : DailyTraffic → ℕ
bytes_of d = d.tx_bytes + d.rx_bytes

abbrev pub daily_of : String → DailyTraffic → Bool
daily_of origin_id d = str_eq d.origin_id origin_id

-- All traffic of an origin
abbrev pub total_of : String → List DailyTraffic → ℕ
total_of origin_id rows = sum_where (daily_of origin_id) bytes_of rows

abbrev pub used_in : String → Date × Date → DailyTraffic → Bool
used_in origin_id period d = daily_of origin_id d && is_day_in period d.usage_date

-- The traffic of an origin in its period, of the rows that were selected for all origins
unfoldable pub cycle_usage : String → Date × Date → List DailyTraffic → ℕ
unfolding sum_where day_index
cycle_usage origin_id period rows = sum_where (used_in origin_id period) bytes_of rows

abbrev pub budget_is : String → Budget → Bool
budget_is origin_id b = str_eq b.origin_id origin_id

-- The amount set by hand counts in the period in which it was set.
abbrev pub used_by_hand : String → Date × Date → ℕ → List DailyTraffic → Budget → Option ℕ → ℕ
used_by_hand origin_id period cycle rows b none = cycle
used_by_hand origin_id period cycle rows b (some at) =
    if is_time_in period at
    then b.manual_used_bytes + (total_of origin_id rows - b.baseline_total_bytes)
    else cycle

unfoldable pub used_bytes_of : String → Date × Date → ℕ → List DailyTraffic → Option Budget → ℕ
unfolding day_index days_of sum_where
used_bytes_of origin_id period cycle rows none = cycle
used_bytes_of origin_id period cycle rows (some b) =
    used_by_hand origin_id period cycle rows b b.baseline_at

pub data BudgetStatus : Type 0 where
  disabled exhausted warning normal : BudgetStatus

abbrev pub status_of : ℕ → ℕ → ℕ → BudgetStatus
status_of limit warning_percent used =
    if limit == 0
    then disabled
    else if leb limit used
    then exhausted
    else if leb (limit * warning_percent) (used * 100)
    then warning
    else normal

pub record BudgetResult : Type 0 where
  pub origin_id : String
  pub period : ℕ
  pub period_start : ℕ
  pub period_end : ℕ
  pub limit_bytes : ℕ
  pub warning_percent : ℕ
  pub reset_day : ℕ
  pub manual_used_bytes : ℕ
  pub baseline_at : Option ℕ
  pub used_bytes : ℕ
  pub remaining_bytes : Option ℕ
  pub status : BudgetStatus
  pub updated_by : Option String
  pub updated_at : Option ℕ

abbrev pub limit_of : Option Budget → ℕ
limit_of budget = maybe budget 0 (λ b. b.limit_bytes)

abbrev pub warning_of : Option Budget → ℕ
warning_of budget = maybe budget 80 (λ b. b.warning_percent)

abbrev pub reset_day_of : Option Budget → ℕ
reset_day_of budget = maybe budget 1 (λ b. b.reset_day)

unfoldable pub budget_result : String → ℕ → Date × Date → Option Budget → ℕ → BudgetResult
unfolding day_index
budget_result origin_id period (start, end) budget used = record {
  origin_id = origin_id;
  period = period;
  period_start = day_index start;
  period_end = day_index end;
  limit_bytes = limit_of budget;
  warning_percent = warning_of budget;
  reset_day = reset_day_of budget;
  manual_used_bytes = maybe budget 0 (λ b. b.manual_used_bytes);
  baseline_at = maybe budget none (λ b. b.baseline_at);
  used_bytes = used;
  remaining_bytes = if limit_of budget == 0 then none else some (limit_of budget - used);
  status = status_of (limit_of budget) (warning_of budget) used;
  updated_by = maybe budget none (λ b. some b.updated_by);
  updated_at = maybe budget none (λ b. some b.updated_at);
}

-- `_validate_budget_origin_id`
unfoldable pub is_budget_origin : String → Bool
unfolding after
is_budget_origin origin_id = is_id "local:" origin_id || is_id "node:" origin_id

unfoldable pub all_budget_origins : List String → Bool
unfolding is_budget_origin
all_budget_origins [] = true
all_budget_origins (id ∷ ids) = is_budget_origin id && all_budget_origins ids

abbrev pub budget_of : Database → String → Option Budget
budget_of db origin_id = select (budget_is origin_id) db.budgets

abbrev pub origin_period : ℕ → Database → String → Date × Date
origin_period now db origin_id = budget_period now (reset_day_of (budget_of db origin_id))

-- `min` of the starts and `max` of the ends of the periods of all origins
unfoldable pub first_day : ℕ → Database → String → List String → ℕ
unfolding budget_period select
first_day now db id [] = day_index ((origin_period now db id).0)
first_day now db id (next ∷ ids) =
    min (day_index ((origin_period now db id).0)) (first_day now db next ids)

unfoldable pub next_day : ℕ → Database → String → List String → ℕ
unfolding budget_period select
next_day now db id [] = day_index ((origin_period now db id).1)
next_day now db id (next ∷ ids) =
    max (day_index ((origin_period now db id).1)) (next_day now db next ids)

abbrev pub is_day_between : ℕ → ℕ → DailyTraffic → Bool
is_day_between first next d = leb first d.usage_date && ltb d.usage_date next

-- The result of one origin, from the rows that were selected
unfoldable pub origin_budget : ℕ → Database → List DailyTraffic → String → BudgetResult
unfolding budget_result used_bytes_of cycle_usage budget_period
origin_budget now db rows origin_id =
    let period = origin_period now db origin_id in
    budget_result origin_id (month_index (utc_date now)) period (budget_of db origin_id) (
      used_bytes_of origin_id period (cycle_usage origin_id period rows) db.daily
        (budget_of db origin_id))

unfoldable pub budgets_of : ℕ → Database → List String → List BudgetResult
unfolding origin_budget first_day next_day select_all
budgets_of now db [] = []
budgets_of now db (id ∷ ids) =
    map
      (origin_budget now db
        (select_all (is_day_between (first_day now db id ids) (next_day now db id ids)) db.daily))
      (id ∷ ids)

unfoldable pub list_origin_budgets : ℕ → List String → Database → Result Error (List BudgetResult)
unfolding budgets_of all_budget_origins
list_origin_budgets now ids db = do
  guard (leb (length ids) 1024) Error.invalid_request
  guard (all_budget_origins ids) Error.invalid_request
  guard (length (distinct ids) == length ids) Error.invalid_request
  ok (budgets_of now db ids)

-- `get_origin_budget`
abbrev pub get_origin_budget : ℕ → String → Database → Result Error (List BudgetResult)
get_origin_budget now origin_id db = list_origin_budgets now (origin_id ∷ []) db

pub record BudgetChange : Type 0 where
  pub origin_id : String
  pub limit_bytes : ℕ
  pub warning_percent : ℕ
  pub actor : String
  pub updated_at : ℕ
  pub manual_used_bytes : Option ℕ
  pub reset_day : Option ℕ

abbrev pub is_valid_change : BudgetChange → Bool
is_valid_change c =
    is_budget_origin c.origin_id
    && leb c.limit_bytes max_integer
    && leb 1 c.warning_percent
    && leb c.warning_percent 99
    && maybe c.manual_used_bytes true (λ m. leb m max_integer)
    && maybe c.reset_day true (λ d. leb 1 d && leb d 31)
    && name_text c.actor

-- The node of the origin, if it has one, exists.
abbrev pub node_exists : String → Database → Bool
node_exists origin_id db =
    maybe (after "node:" origin_id) true (λ node_id. ltb 0 (row_count (node_is node_id) db.nodes))

-- What is kept of the budget that is there, or set by hand
abbrev pub by_hand : BudgetChange → Option Budget → List DailyTraffic → Option ℕ → Budget → Budget
by_hand c existing daily none b = record b {
  manual_used_bytes = maybe existing 0 (λ x. x.manual_used_bytes);
  baseline_total_bytes = maybe existing 0 (λ x. x.baseline_total_bytes);
  baseline_at = maybe existing none (λ x. x.baseline_at);
}
by_hand c existing daily (some m) b = record b {
  manual_used_bytes = m;
  baseline_total_bytes = total_of c.origin_id daily;
  baseline_at = some c.updated_at;
}

abbrev pub budget_in : BudgetChange → Option Budget → Budget
budget_in c existing = record {
  origin_id = c.origin_id;
  limit_bytes = c.limit_bytes;
  warning_percent = c.warning_percent;
  reset_day = maybe c.reset_day (reset_day_of existing) (λ d. d);
  manual_used_bytes = 0;
  baseline_total_bytes = 0;
  baseline_at = none;
  updated_by = c.actor;
  updated_at = c.updated_at;
}

abbrev pub changed_budget : BudgetChange → Option Budget → List DailyTraffic → Budget
changed_budget c existing daily =
    by_hand c existing daily c.manual_used_bytes (budget_in c existing)

-- The INSERT with its ON CONFLICT
unfoldable pub write_budget : BudgetChange → Database → Database
unfolding upsert select sum_where
write_budget c db =
    let new = changed_budget c (budget_of db c.origin_id) db.daily in
    record db { budgets = upsert (budget_is c.origin_id) (λ _. new) new db.budgets }

unfoldable pub set_origin_budget : BudgetChange → Database → Tx (List BudgetResult)
unfolding write_budget is_budget_origin list_origin_budgets
set_origin_budget c db = do
  guard (is_valid_change c) Error.invalid_request
  guard (node_exists c.origin_id db) Error.no_such_node
  results ← get_origin_budget c.updated_at c.origin_id (write_budget c db)
  ok (results, write_budget c db)
