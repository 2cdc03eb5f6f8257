-- ===== src/Nodes/Enrollment/Announcement.antt =====
-- How a node is announced: `create_node_enrollment` of `class Database` in hysteria2_panel.py. The ids of the
-- node and its enrollment are arguments, and the line type is one of the two by its type.
use hysteria2_panel.Prelude.{
  ℕ, String, Bool, false, not, ◌&&◌, ◌||◌, Option, none, some, List, [], ◌∷◌, ◌++◌, Result, ok,
  guard, maybe, ◌>>=◌, ◌>>◌, select_all, update, row_count, ◌==◌, leb, if◌then◌else◌, is_set,
  str_eq, str_le, len, every, last_char, first_char,
}
use hysteria2_panel.Nodes.Row.{
  pending_registration, standby, not_issued, active, Tier, Node, Enrollment, Profile, is_revoked,
  is_premium,
}
use hysteria2_panel.Nodes.Database.{Database, Error, Tx, node_is}

-- `[A-Za-z0-9]`
is_alnum : ℕ → Bool
is_alnum c = leb b'0' c && leb c b'9' || leb b'A' c && leb c b'Z' || leb b'a' c && leb c b'z'

-- `(?=.{1,253}$)[A-Za-z0-9](?:[A-Za-z0-9.-]*[A-Za-z0-9])?`
unfoldable pub host_text : String → Bool
unfolding is_alnum
host_text s =
    leb 1 (len s)
    && leb (len s) 253
    && every (λ c. is_alnum c || c == b'.' || c == b'-') s
    && maybe (first_char s) false is_alnum
    && maybe (last_char s) false is_alnum

region_ok : String → Bool
region_ok r = str_eq r "hk" || str_eq r "us" || str_eq r "jp" || str_eq r "sg"

unfoldable pub port_ok : ℕ → Bool
port_ok p = leb 1 p && leb p 65535 && not (p == 443 || p == 19995 || p == 19996 || p == 19997)

-- A node as it is announced
abbrev pub new_node :
    String → String → Option String → ℕ → Tier → String → String → ℕ → ℕ → Bool → Node
new_node node_id name expected_ip at tier region host port listen_port hopping = record {
  node_id = node_id;
  name = name;
  expected_ip = expected_ip;
  observed_ip = none;
  status = pending_registration;
  public_key = none;
  agent_version = none;
  hostname = none;
  platform = none;
  architecture = none;
  tier = tier;
  region = region;
  subscription_host = host;
  subscription_port = port;
  listen_port = listen_port;
  port_hopping = hopping;
  created_at = at;
  registered_at = none;
  last_seen_at = none;
  verified_at = none;
  verified_by = none;
  last_heartbeat_at = none;
  last_heartbeat_ip = none;
  policy_state = standby;
  policy_enabled_at = none;
  policy_enabled_by = none;
  last_snapshot_at = none;
  last_traffic_ack_at = none;
  data_plane_state = not_issued;
  data_plane_installed_at = none;
  direct_canary_passed_at = none;
  dns_admitted_at = none;
  dns_admitted_by = none;
  dns_removed_at = none;
  dns_removed_by = none;
  lifecycle_state = active;
  lifecycle_changed_at = none;
  lifecycle_changed_by = none;
  budget_dns_confirmed_at = none;
  budget_idle_since = none;
  budget_checked_at = none;
}

-- The node of a region that is in use
abbrev pub regional_node : String → Node → Bool
regional_node region n = is_premium n.tier && str_eq n.region region && not (is_revoked n.status)

-- A profile that a new node of the region may take over: its node is gone or revoked.
free_profile : String → Database → Profile → Bool
free_profile region db p =
    str_eq p.region region
    && row_count (λ n. node_is p.node_id n && not (is_revoked n.status)) db.nodes == 0

-- `ORDER BY p.node_id LIMIT 1`
least_profile : List Profile → Option Profile
least_profile [] = none
least_profile (p ∷ ps) =
    let rest = least_profile ps in
    maybe rest (some p) (λ q. if str_le p.node_id q.node_id then some p else some q)

unfoldable pub saved_profile : Tier → String → Database → Option Profile
unfolding free_profile least_profile
saved_profile tier region db =
    if is_premium tier
    then least_profile (select_all (free_profile region db) db.profiles)
    else none

-- The profiles after `p` was announced: it takes over `saved`, or it is inserted.
unfoldable pub with_profile :
    Tier → Option Profile → Profile → List Profile → Result Error (List Profile)
with_profile tier (some saved) p profiles = do
  guard
      (str_eq saved.node_id p.node_id || row_count (λ x. str_eq x.node_id p.node_id) profiles == 0)
      Error.integrity_error
  ok (
      update (λ x. str_eq x.node_id saved.node_id)
        (λ x. record x {
          node_id = p.node_id;
          label = p.label;
          host = p.host;
          port = p.port;
          listen_port = p.listen_port;
          port_hopping = p.port_hopping;
        })
        profiles)
with_profile tier none p profiles = do
  guard (not (is_premium tier) || row_count (λ x. str_eq x.node_id p.node_id) profiles == 0)
      Error.integrity_error
  ok (if is_premium tier then profiles ++ p ∷ [] else profiles)

-- `enrollment_id` is the primary key and `token_digest` is unique.
abbrev pub enrollment_collides : Enrollment → Enrollment → Bool
enrollment_collides e x =
    str_eq x.enrollment_id e.enrollment_id || str_eq x.token_digest e.token_digest

-- The inserts of a new node, its profile and its enrollment
abbrev pub announce : Node → Profile → Enrollment → Database → Tx (String × Bool)
announce n p e db = do
  let saved = saved_profile n.tier n.region db
  guard (not (is_premium n.tier) || row_count (regional_node n.region) db.nodes == 0)
      Error.region_taken
  guard (row_count (node_is n.node_id) db.nodes == 0) Error.integrity_error
  profiles ← with_profile n.tier saved p db.profiles
  guard (row_count (enrollment_collides e) db.enrollments == 0) Error.integrity_error
  ok (
    (n.node_id, is_set saved),
    record db {
      nodes = db.nodes ++ n ∷ [];
      profiles = profiles;
      enrollments = db.enrollments ++ e ∷ [];
    },
  )

unfoldable pub create_node_enrollment :
    String
    → String
    → String
    → Option String
    → String
    → String
    → ℕ
    → ℕ
    → Tier
    → String
    → String
    → ℕ
    → Bool
    → Database
    → Tx (String × Bool)
unfolding host_text region_ok port_ok saved_profile with_profile
create_node_enrollment node_id enrollment_id name expected_ip actor token_digest created_at
      expires_at tier region host port hopping db =
    do
      guard (not (is_premium tier) || region_ok region) Error.invalid_request
      guard (str_eq host "" || host_text host) Error.invalid_request
      guard (not (is_premium tier) || not (str_eq host "")) Error.invalid_request
      guard (port_ok port) Error.invalid_request
      let public_port = if hopping then 443 else port
      announce
          (new_node node_id name expected_ip created_at tier region host public_port port hopping)
          record {
            node_id = node_id;
            region = region;
            label = name;
            host = host;
            port = public_port;
            listen_port = port;
            port_hopping = hopping;
          }
          record {
            enrollment_id = enrollment_id;
            node_id = node_id;
            token_digest = token_digest;
            created_by = actor;
            created_at = created_at;
            expires_at = expires_at;
            consumed_at = none;
            revoked_at = none;
          }
          db
