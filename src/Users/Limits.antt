-- ===== src/Users/Limits.antt =====
-- `update_proxy_user_limits` of `class Database` in hysteria2_panel.py. An argument that is left out
-- is `none`; the dates may also be set to no date, `some none`.
pub mod Written
use hysteria2_panel.Prelude.{
  ℕ, ◌+◌, String, Bool, true, false, ◌||◌, Option, none, some, [], ◌∷◌, Result, ok, guard, maybe,
  ◌>>=◌, ◌>>◌, leb, ltb, if◌then◌else◌,
}
use hysteria2_panel.Nodes.Row.{User}
use hysteria2_panel.Nodes.Database.{Database, Error, Tx}
use hysteria2_panel.Nodes.Kicks.{queue_kick_users}
use hysteria2_panel.Users.{
  max_traffic_limit, get_proxy_user, same_generation, set_user, positive, starts_before, limits_ok,
}
use hysteria2_panel.Users.Traffic.{set_user_used_traffic}

pub record Change : Type 0 where
  pub device_limit : ℕ
  pub traffic_limit_bytes : ℕ
  pub allow_udp_443 : Option Bool
  pub used_traffic_bytes : Option ℕ
  pub expires_at : Option (Option ℕ)
  pub starts_at : Option (Option ℕ)

-- The value of a column that an argument may replace
abbrev pub given : {A : Type 0} → Option A → A → A
given none old = old
given (some new) old = new

abbrev pub changed_row : Change → ℕ → User → User
changed_row c now u = record u {
  device_limit = c.device_limit;
  traffic_limit_bytes = c.traffic_limit_bytes;
  allow_udp_443 = given c.allow_udp_443 u.allow_udp_443;
  expires_at = given c.expires_at u.expires_at;
  starts_at = given c.starts_at u.starts_at;
  generation = u.generation + 1;
  updated_at = now;
}

-- The account may not connect now, whatever its traffic.
abbrev pub out_of_time : ℕ → User → Bool
out_of_time now u =
    maybe u.starts_at false (λ s. ltb now s) || maybe u.expires_at false (λ e. leb e now)

abbrev pub exhausted : User → Bool
exhausted u = leb u.traffic_limit_bytes (u.tx_bytes + u.rx_bytes)

abbrev pub set_used_if : Option ℕ → User → ℕ → Database → Database
set_used_if none u now db = db
set_used_if (some used) u now db = set_user_used_traffic u used now db

module _ (casefold : String → String) (fresh_id : ℕ → String) where
  -- A kick if the test holds
  unfoldable pub kick_if : Bool → String → ℕ → Bool → ℕ → Database → Result Error (ℕ × Database)
  kick_if test name now quota_only n db =
      let kicked = queue_kick_users casefold fresh_id (name ∷ []) now quota_only n db in
      if test then kicked else ok (n, db)

  -- The kicks after the row has been written
  unfoldable pub kick_changed : User → User → ℕ → Database → Tx User
  kick_changed u updated now db = do
    (n, db') ← kick_if (out_of_time now updated) u.name now false 0 db
    (m, db'') ← kick_if (exhausted updated) u.name now true n db'
    ok (updated, db'')

  unfoldable pub update_proxy_user_limits : ℕ → Change → Option ℕ → ℕ → Database → Tx User
  unfolding get_proxy_user limits_ok
  update_proxy_user_limits id c expected now db = do
    guard (limits_ok c.device_limit c.traffic_limit_bytes) Error.invalid_request
    guard (maybe c.used_traffic_bytes true (λ used. leb used max_traffic_limit))
        Error.invalid_request
    guard (maybe c.expires_at true positive) Error.invalid_request
    u ← get_proxy_user id db
    guard (same_generation expected u) Error.changed_meanwhile
    guard (starts_before (given c.starts_at u.starts_at) (given c.expires_at u.expires_at))
        Error.invalid_request
    let db' = set_used_if c.used_traffic_bytes u now (set_user id (changed_row c now) db)
    updated ← get_proxy_user id db'
    kick_changed u updated now db'
