-- ===== src/Users/Traffic.antt =====
-- The traffic of accounts as an administrator sets it: `_set_user_used_traffic`,
-- `reset_proxy_user_traffic`, `reset_group_traffic`, `reset_all_traffic` and
-- `_reset_monthly_traffic_if_due` of `class Database` in hysteria2_panel.py. The table of the domains
-- and the audit log are left out.
use hysteria2_panel.Prelude.{
  ℕ, ◌+◌, ◌-◌, ◌*◌, ◌/◌, max, String, Bool, true, false, Option, none, some, List, [], ◌∷◌, ok,
  guard, maybe, ◌>>=◌, ◌>>◌, select_all, update, delete, ◌==◌, leb, ltb, if◌then◌else◌, if_cases,
  nocase_eq, month_index, beijing_date, days_of,
}
use hysteria2_panel.Nodes.Row.{User}
use hysteria2_panel.Nodes.UsageRows.{OriginUser, HourlyTraffic}
use hysteria2_panel.Nodes.Database.{Database, Error, Tx}
use hysteria2_panel.Users.{user_is, same_generation, set_user, get_proxy_user}

abbrev pub origin_user_named : String → OriginUser → Bool
origin_user_named name o = nocase_eq o.user_name name

-- The sent bytes that keep the ratio of the directions; an empty account has none.
unfoldable pub shared_tx : ℕ → ℕ → ℕ → ℕ
shared_tx tx old_total used = if old_total == 0 then 0 else tx * used / old_total

abbrev pub scaled : User → ℕ → ℕ → ℕ → OriginUser → OriginUser
scaled u tx rx now o = record o {
  tx_bytes = o.tx_bytes * tx / max 1 u.tx_bytes;
  rx_bytes = o.rx_bytes * rx / max 1 u.rx_bytes;
  updated_at = now;
}

-- The loop over the origins changes each row by itself: their key is the origin and the account.
abbrev pub scale_origins : User → ℕ → ℕ → ℕ → List OriginUser → List OriginUser
scale_origins u tx rx now rows = update (origin_user_named u.name) (scaled u tx rx now) rows

-- The writes where the total changes; `tx` and `used - tx` are the new counters.
unfoldable pub share_used : User → ℕ → ℕ → ℕ → Database → Database
share_used u used tx now db = record db {
  origin_users =
      if ltb used (u.tx_bytes + u.rx_bytes)
      then scale_origins u tx (used - tx) now db.origin_users
      else db.origin_users;
  users = update (user_is u.id) (λ x. record x { tx_bytes = tx; rx_bytes = used - tx }) db.users;
}

unfoldable pub set_user_used_traffic : User → ℕ → ℕ → Database → Database
unfolding shared_tx share_used
set_user_used_traffic u used now db =
    let db' = set_user u.id (λ x. record x { traffic_adjusted_at = some now }) db in
    let total : ℕ = u.tx_bytes + u.rx_bytes in
    if total == used then db' else share_used u used (shared_tx u.tx_bytes total used) now db'

-- An account with no traffic
abbrev pub emptied : ℕ → User → User
emptied now u = record u {
  tx_bytes = 0;
  rx_bytes = 0;
  generation = u.generation + 1;
  updated_at = now;
}

abbrev pub emptied_origin : ℕ → OriginUser → OriginUser
emptied_origin now o = record o { tx_bytes = 0; rx_bytes = 0; updated_at = now }

unfoldable pub reset_proxy_user_traffic : ℕ → Option ℕ → ℕ → Database → Tx Unit
unfolding get_proxy_user
reset_proxy_user_traffic id expected now db = do
  u ← get_proxy_user id db
  guard (same_generation expected u) Error.changed_meanwhile
  ok (
    tt,
    record db {
      users =
          update (user_is id)
            (λ x. record (emptied now x) {
              traffic_adjusted_at = some now;
              domain_usage_reset_at = some now;
            })
            db.users;
      origin_users = update (origin_user_named u.name) (emptied_origin now) db.origin_users;
    },
  )

-- `MAX(COALESCE(traffic_adjusted_at, cutoff), cutoff)`
abbrev pub adjusted_after : ℕ → Option ℕ → ℕ
adjusted_after cutoff at = max (maybe at cutoff (λ t. t)) cutoff

unfoldable pub reset_all_with : ℕ → Bool → Option ℕ → Database → Database
reset_all_with now clear_domains cutoff db = record db {
  users =
      update (λ _. true)
        (λ (u : User). record (emptied now u) {
          traffic_adjusted_at =
              some (maybe cutoff now (λ c. adjusted_after c u.traffic_adjusted_at));
          domain_usage_reset_at = if clear_domains then some now else u.domain_usage_reset_at;
        })
        db.users;
  origin_users = update (λ _. true) (emptied_origin now) db.origin_users;
}

unfoldable pub reset_all_traffic : ℕ → Database → Database
unfolding reset_all_with
reset_all_traffic now db = reset_all_with now true none db

unfoldable pub reset_each : ℕ → List User → Database → Database
unfolding set_user_used_traffic
reset_each now [] db = db
reset_each now (u ∷ users) db = reset_each now users (set_user_used_traffic u 0 now db)

abbrev pub of_type : ℕ → User → Bool
of_type type u = u.user_type == type

unfoldable pub reset_group_traffic : ℕ → ℕ → Database → Database
unfolding reset_each
reset_group_traffic type now db =
    let db' = reset_each now (select_all (of_type type) db.users) db in
    record db' {
      users =
          update (of_type type) (λ u. record u { generation = u.generation + 1; updated_at = now })
            db'.users;
    }

-- "%Y-%m" in Beijing time
abbrev pub user_traffic_month : ℕ → ℕ
user_traffic_month now = month_index (beijing_date now)

-- The first moment of a month in Beijing time
unfoldable pub month_start : ℕ → ℕ
unfolding days_of
month_start period = days_of (period / 12, period - period / 12 * 12 + 1, 1) * 86400 - 28800

-- The writes of a reset: what was counted in earlier months is dropped.
unfoldable pub begin_month : ℕ → ℕ → Database → Database
unfolding reset_all_with month_start
begin_month period now db =
    let db' = reset_all_with now false (some (month_start period - 1)) db in
    record db' {
      hourly = delete (λ (h : HourlyTraffic). ltb h.usage_day (period * 32 + 1)) db'.hourly;
      reset_period = some period;
    }

-- `last` is the month that was begun last.
unfoldable pub reset_since : Option ℕ → ℕ → Database → Bool × Database
unfolding begin_month
reset_since none now db = (false, record db { reset_period = some (user_traffic_month now) })
reset_since (some last) now db =
    if leb (user_traffic_month now) last
    then (false, db)
    else (true, begin_month (user_traffic_month now) now db)

unfoldable pub reset_monthly_traffic_if_due : ℕ → Database → Bool × Database
unfolding reset_since
reset_monthly_traffic_if_due now db = reset_since db.reset_period now db

-- What holds of the tables in each of the three cases
pub reset_monthly-cases {κ} :
    (P : Database → Type κ) (now : ℕ) (db : Database)
    → P db
    → ((period : Option ℕ) → P (record db { reset_period = period }))
    → P (begin_month (user_traffic_month now) now db)
    → P ((reset_monthly_traffic_if_due now db).1)
unfolding reset_monthly_traffic_if_due
reset_monthly-cases P now db h named begun = by_period db.reset_period
  where
    by_period : (last : Option ℕ) → P ((reset_since last now db).1)
    by_period none = named (some (user_traffic_month now))
    by_period (some last) =
        if_cases (λ (p : Bool × Database). P (p.1)) (leb (user_traffic_month now) last) (false, db)
          (true, begin_month (user_traffic_month now) now db) (λ _. h) (λ _. begun)
