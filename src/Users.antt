-- ===== src/Users.antt =====
-- The accounts of the panel: the transactions on `proxy_users` of `class Database` in
-- hysteria2_panel.py. A token is the text that the caller gave or that was derived from a new seed;
-- `token_fingerprint` and `name_fingerprint` are the keyed digests `_fingerprint` and
-- `_retired_name_fingerprint`.
pub mod Traffic
pub mod Expiry
pub mod Limits
pub mod Quota
mod Tests
use hysteria2_panel.Prelude.{
  ℕ, suc, ◌+◌, ◌*◌, ◌^◌, max, String, Bool, true, false, not, ◌&&◌, ◌||◌, Option, none, some, List,
  [], ◌∷◌, ◌++◌, Result, ok, guard, maybe, found, ◌>>=◌, ◌>>◌, select, update, delete, row_count,
  ◌==◌, leb, ltb, if◌then◌else◌, str_eq, nocase_eq, strip, name_text, len,
}
use hysteria2_panel.Nodes.Row.{User, OnlineCount, AuthDecision, Lease}
use hysteria2_panel.Nodes.UsageRows.{OriginUser, HourlyTraffic}
use hysteria2_panel.Nodes.Database.{Database, Error, Tx}
use hysteria2_panel.Nodes.Bootstrap.Ack.{canary_user}

-- `MAX_DEVICE_LIMIT`, `MAX_TRAFFIC_LIMIT_BYTES`
abbrev pub max_device_limit : ℕ
max_device_limit = 100

abbrev pub max_traffic_limit : ℕ
max_traffic_limit = 1024 * 1024 ^ 4

abbrev pub user_is : ℕ → User → Bool
user_is id u = u.id == id

-- `WHERE name = ? COLLATE NOCASE`
abbrev pub user_named : String → User → Bool
user_named name u = nocase_eq u.name name

unfoldable pub get_proxy_user : ℕ → Database → Result Error User
get_proxy_user id db = found (select (user_is id) db.users) Error.no_such_user

-- `expected_generation`, which the row must have
abbrev pub same_generation : Option ℕ → User → Bool
same_generation none u = true
same_generation (some g) u = g == u.generation

abbrev pub set_user : ℕ → (User → User) → Database → Database
set_user id change db = record db { users = update (user_is id) change db.users }

-- Either date is positive, and the start comes before the end.
abbrev pub positive : Option ℕ → Bool
positive none = true
positive (some t) = ltb 0 t

abbrev pub starts_before : Option ℕ → Option ℕ → Bool
starts_before none ends = true
starts_before (some s) none = ltb 0 s
starts_before (some s) (some e) = ltb 0 s && ltb s e

abbrev pub dates_ok : Option ℕ → Option ℕ → Bool
dates_ok expires starts = positive expires && starts_before starts expires

unfoldable pub limits_ok : ℕ → ℕ → Bool
limits_ok device_limit traffic_limit =
    leb 1 device_limit
    && leb device_limit max_device_limit
    && leb 1 traffic_limit
    && leb traffic_limit max_traffic_limit

-- The id that SQLite gives a new row: one more than the largest
unfoldable pub next_id : List User → ℕ
next_id [] = 1
next_id (u ∷ users) = max (suc u.id) (next_id users)

abbrev pub new_user : ℕ → String → String → ℕ → ℕ → Bool → ℕ → Option ℕ → Option ℕ → ℕ → User
new_user id name fingerprint device_limit traffic_limit udp type expires starts now = record {
  id = id;
  name = name;
  enabled = true;
  generation = 0;
  user_type = type;
  token_fingerprint = fingerprint;
  starts_at = starts;
  expires_at = expires;
  device_limit = device_limit;
  traffic_limit_bytes = traffic_limit;
  tx_bytes = 0;
  rx_bytes = 0;
  allow_udp_443 = udp;
  traffic_adjusted_at = none;
  domain_usage_reset_at = none;
  local_drain_started_at = none;
  created_at = now;
  updated_at = now;
}

-- Another row with the same name or token, which `proxy_users` refuses
abbrev pub user_collides : User → User → Bool
user_collides u v = nocase_eq v.name u.name || str_eq v.token_fingerprint u.token_fingerprint

module _ (casefold name_fingerprint token_fingerprint : String → String) where
  -- The statements, for arguments that were checked
  unfoldable pub insert_user :
      String → String → ℕ → ℕ → Bool → ℕ → Option ℕ → Option ℕ → ℕ → Database → Tx ℕ
  unfolding next_id
  insert_user name token device_limit traffic_limit udp type expires starts now db = do
    guard (row_count (λ n. str_eq n (name_fingerprint name)) db.retired_names == 0) Error.name_taken
    let id = next_id db.users
    let row =
        new_user id name (token_fingerprint token) device_limit traffic_limit udp type expires
          starts now
    guard (row_count (user_collides row) db.users == 0) Error.name_taken
    ok (id, record db { users = db.users ++ row ∷ [] })

  unfoldable pub create_proxy_user :
      String → String → ℕ → ℕ → Bool → ℕ → Option ℕ → Option ℕ → ℕ → Database → Tx ℕ
  unfolding limits_ok insert_user
  create_proxy_user raw token device_limit traffic_limit udp type expires starts now db = do
    let name = strip raw
    guard (name_text name) Error.invalid_request
    guard (not (str_eq (casefold name) (casefold canary_user))) Error.invalid_request
    guard (limits_ok device_limit traffic_limit) Error.invalid_request
    guard (leb type 1) Error.invalid_request
    guard (dates_ok expires starts) Error.invalid_request
    guard (leb 8 (len token) && leb (len token) 512) Error.invalid_request
    insert_user name token device_limit traffic_limit udp type expires starts now db

unfoldable pub set_proxy_user_enabled : ℕ → Bool → Option ℕ → ℕ → Database → Tx Unit
unfolding get_proxy_user
set_proxy_user_enabled id enabled expected now db = do
  u ← get_proxy_user id db
  guard (same_generation expected u) Error.changed_meanwhile
  ok (
    tt,
    set_user id
        (λ x. record x { enabled = enabled; generation = x.generation + 1; updated_at = now }) db,
  )

-- `token_fingerprint` is UNIQUE.
unfoldable pub rotate_proxy_token :
    (token_fingerprint : String → String) → ℕ → String → Option ℕ → Bool → ℕ → Database → Tx String
unfolding get_proxy_user
rotate_proxy_token token_fingerprint id token expected drain_local now db = do
  guard (leb 8 (len token) && leb (len token) 512) Error.invalid_request
  u ← get_proxy_user id db
  guard (same_generation expected u) Error.changed_meanwhile
  guard
      (row_count
          (λ (x : User). not (user_is id x) && str_eq x.token_fingerprint (token_fingerprint token))
          db.users
        == 0)
      Error.name_taken
  ok (
    u.name,
    set_user id
        (λ x. record x {
          token_fingerprint = token_fingerprint token;
          generation = x.generation + 1;
          updated_at = now;
          local_drain_started_at = if drain_local then some now else x.local_drain_started_at;
        })
        db,
  )

unfoldable pub finish_local_user_drain : ℕ → ℕ → ℕ → Database → Database
finish_local_user_drain id generation started_at db = record db {
  users =
      update
        (λ (u : User).
          user_is id u
          && u.generation == generation
          && maybe u.local_drain_started_at false (λ t. t == started_at))
        (λ u. record u { local_drain_started_at = none }) db.users;
}

-- `INSERT OR IGNORE INTO retired_proxy_names`
abbrev pub retire : String → List String → List String
retire fingerprint names =
    if ltb 0 (row_count (λ n. str_eq n fingerprint) names) then names else names ++ fingerprint ∷ []

-- The rows that go with an account. The rows of `user_traffic_hourly` refer to it and are deleted by
-- SQLite.
abbrev pub without_user : User → (name_fingerprint : String → String) → Database → Database
without_user u name_fingerprint db = record db {
  retired_names = retire (name_fingerprint u.name) db.retired_names;
  online_counts = delete (λ (c : OnlineCount). nocase_eq c.user_name u.name) db.online_counts;
  auth_decisions =
      delete (λ (d : AuthDecision). maybe d.user_name false (λ n. nocase_eq n u.name))
        db.auth_decisions;
  leases = delete (λ (l : Lease). nocase_eq l.user_name u.name) db.leases;
  origin_users = delete (λ (o : OriginUser). nocase_eq o.user_name u.name) db.origin_users;
  users = delete (user_is u.id) db.users;
  hourly = delete (λ (h : HourlyTraffic). h.user_id == u.id) db.hourly;
}

unfoldable pub delete_proxy_user :
    (name_fingerprint : String → String) → ℕ → Option ℕ → Database → Tx User
unfolding get_proxy_user
delete_proxy_user name_fingerprint id expected db = do
  u ← get_proxy_user id db
  guard (same_generation expected u) Error.changed_meanwhile
  ok (u, without_user u name_fingerprint db)
