-- ===== src/Traffic.antt =====
-- The traffic that the panel accounts: `_record_usage_origin_traffic` of `class Database` in
-- hysteria2_panel.py, which both kinds of batches call for each of their entries. The calls without
-- records of domains are modelled.
pub mod Batches
pub mod NodeBatches
pub mod Keeps
pub mod Replays
pub mod Crossings
pub mod Budgets
pub mod Totals
pub mod Collector
mod Tests
use hysteria2_panel.Prelude.{
  ℕ, ◌+◌, ◌/◌, ◌%◌, ◌^◌, ◌-◌, max, String, Bool, false, ◌&&◌, Option, none, some, List, [], ◌∷◌,
  ◌++◌, maybe, select, update, row_count, ◌==◌, leb, ltb, if◌then◌else◌, str_eq, nocase_eq,
  utc_date, beijing_date, day_index,
}
use hysteria2_panel.Nodes.Row.{User}
use hysteria2_panel.Nodes.UsageRows.{
  OriginKind, Origin, OriginUser, DailyTraffic, Budget, HourlyTraffic,
}
use hysteria2_panel.Nodes.Database.{Database}
use hysteria2_panel.Users.{user_named}
use hysteria2_panel.Users.Traffic.{user_traffic_month}

-- `MAX_SQLITE_INTEGER`
abbrev pub max_integer : ℕ
max_integer = 2 ^ 63 - 1

-- `INSERT ... ON CONFLICT DO UPDATE`
unfoldable pub upsert : {A : Type 0} → (A → Bool) → (A → A) → A → List A → List A
upsert test change new rows =
    if ltb 0 (row_count test rows) then update test change rows else rows ++ new ∷ []

-- One entry of a batch, for the machine that it comes from. `user` is the account, if there is one.
pub record Entry : Type 0 where
  pub origin_id : String
  pub kind : OriginKind
  pub origin_name : String
  pub node_id : Option String
  pub user : Option String
  pub tx : ℕ
  pub rx : ℕ
  pub now : ℕ
  pub account_traffic : Bool
  pub observed_at : ℕ

abbrev pub origin_is : String → Origin → Bool
origin_is origin_id o = str_eq o.origin_id origin_id

abbrev pub or_node : Option String → Option String → Option String
or_node none old = old
or_node (some n) old = some n

unfoldable pub record_origin : Entry → List Origin → List Origin
unfolding upsert
record_origin e origins =
    upsert (origin_is e.origin_id)
      (λ o. record o {
        display_name = e.origin_name;
        node_id = or_node e.node_id o.node_id;
        last_traffic_at = some (max (maybe o.last_traffic_at 0 (λ t. t)) e.now);
      })
      (record {
        origin_id = e.origin_id;
        kind = e.kind;
        node_id = e.node_id;
        display_name = e.origin_name;
        created_at = e.now;
        last_traffic_at = some e.now;
      })
      origins

abbrev pub origin_user_is : String → String → OriginUser → Bool
origin_user_is origin_id name o = str_eq o.origin_id origin_id && nocase_eq o.user_name name

unfoldable pub record_origin_user : Entry → List OriginUser → List OriginUser
unfolding upsert
record_origin_user e rows = maybe e.user rows λ name.
    if e.account_traffic
    then upsert (origin_user_is e.origin_id name)
        (λ o. record o {
          tx_bytes = o.tx_bytes + e.tx;
          rx_bytes = o.rx_bytes + e.rx;
          updated_at = e.now;
        })
        (record {
          origin_id = e.origin_id;
          user_name = name;
          tx_bytes = e.tx;
          rx_bytes = e.rx;
          updated_at = e.now;
        })
        rows
    else rows

-- The hour in Beijing time
abbrev pub hour_of : ℕ → ℕ
hour_of at = (at + 28800) % 86400 / 3600

abbrev pub hour_is : ℕ → ℕ → ℕ → HourlyTraffic → Bool
hour_is id day hour h = h.user_id == id && h.usage_day == day && h.usage_hour == hour

unfoldable pub add_hour : Entry → User → List HourlyTraffic → List HourlyTraffic
unfolding upsert
add_hour e u rows =
    let day = day_index (beijing_date e.observed_at) in
    upsert (hour_is u.id day (hour_of e.observed_at))
      (λ h. record h { tx_bytes = h.tx_bytes + e.tx; rx_bytes = h.rx_bytes + e.rx })
      (record {
        user_id = u.id;
        usage_day = day;
        usage_hour = hour_of e.observed_at;
        tx_bytes = e.tx;
        rx_bytes = e.rx;
      })
      rows

-- An entry of the current month counts for the hour of its account.
unfoldable pub record_hour : Entry → List User → List HourlyTraffic → List HourlyTraffic
unfolding add_hour
record_hour e users rows = maybe e.user rows λ name.
    if ltb 0 (e.tx + e.rx) && user_traffic_month e.observed_at == user_traffic_month e.now
    then maybe (select (user_named name) users) rows (λ u. add_hour e u rows)
    else rows

abbrev pub day_is : String → ℕ → DailyTraffic → Bool
day_is origin_id date d = str_eq d.origin_id origin_id && d.usage_date == date

unfoldable pub record_day : Entry → List DailyTraffic → List DailyTraffic
unfolding upsert
record_day e rows =
    let date = day_index (utc_date e.observed_at) in
    upsert (day_is e.origin_id date)
      (λ d. record d {
        tx_bytes = d.tx_bytes + e.tx;
        rx_bytes = d.rx_bytes + e.rx;
        updated_at = max d.updated_at e.now;
      })
      (record {
        origin_id = e.origin_id;
        usage_date = date;
        tx_bytes = e.tx;
        rx_bytes = e.rx;
        updated_at = e.now;
      })
      rows

-- A budget whose used amount was set by hand at or after the observation has counted the entry.
abbrev pub counted_by_hand : Entry → Budget → Bool
counted_by_hand e b =
    str_eq b.origin_id e.origin_id && maybe b.baseline_at false (λ t. leb e.observed_at t)

abbrev pub later_baseline : Entry → Budget → Budget
later_baseline e b = record b { baseline_total_bytes = b.baseline_total_bytes + (e.tx + e.rx) }

unfoldable pub record_usage : Entry → Database → Database
unfolding record_origin record_origin_user record_hour record_day
record_usage e db = record db {
  hourly = record_hour e db.users db.hourly;
  origins = record_origin e db.origins;
  origin_users = record_origin_user e db.origin_users;
  daily = record_day e db.daily;
  budgets = update (counted_by_hand e) (later_baseline e) db.budgets;
}
