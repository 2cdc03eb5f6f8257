-- ===== src/Nodes/Admission.antt =====
-- How a node comes into service and out of DNS: `verify_node`, `revoke_node`,
-- `accept_node_heartbeat`, `set_node_policy_state`, `mark_node_direct_canary_passed`,
-- `mark_node_dns_admitted` and `remove_node_dns_admission` of `class Database` in hysteria2_panel.py.
pub mod Dns
use hysteria2_panel.Prelude.{
  ℕ, ◌-◌, String, Bool, true, false, not, ◌&&◌, Option, none, some, ok, err, guard, maybe, found,
  ◌>>=◌, ◌>>◌, select, update, row_count, ◌==◌, leb, ltb, if◌then◌else◌, is_null, is_set, at_least,
  str_eq, len, strip, hex_text, version,
}
use hysteria2_panel.Nodes.Row.{
  revoked, PolicyState, standby, protocol_ready, direct_canary_passed, dns_admitted, Node, NonceRow,
  is_pending_verification, is_ready, is_installed, is_canary_passed, is_admitted,
}
use hysteria2_panel.Nodes.Database.{
  Database, Error, Tx, or_return, node_is, max_state_age, heartbeat_freshness,
}
use hysteria2_panel.Nodes.Nonce.{consume_heartbeat_nonce}

-- `str(actor or "").strip()`, refused where it is empty or longer than 64 characters
unfoldable pub actor_ok : String → Bool
unfolding strip len
actor_ok actor = leb 1 (len (strip actor)) && leb (len (strip actor)) 64

-- `rowcount != 1` of an UPDATE that was to change one row
abbrev pub one_row : (Node → Bool) → Database → Bool
one_row test db = row_count test db.nodes == 1

abbrev pub set_nodes : (Node → Bool) → (Node → Node) → Database → Database
set_nodes test change db = record db { nodes = update test change db.nodes }

-- A refusal that commits what there was: `return False`
abbrev pub unchanged : Database → Tx Bool
unchanged db = ok (false, db)

-- The rows that the UPDATEs below write
abbrev pub verified_row : ℕ → String → Node → Node
verified_row at actor x = record x { verified_at = some at; verified_by = some actor }

abbrev pub revoked_row : Node → Node
revoked_row x = record x { status = revoked }

abbrev pub beat_row : ℕ → String → String → Node → Node
beat_row at ip version x = record x {
  last_heartbeat_at = some at;
  last_heartbeat_ip = some ip;
  last_seen_at = some at;
  agent_version = some version;
}

abbrev pub enabled_row : ℕ → String → Node → Node
enabled_row at actor x = record x {
  policy_state = protocol_ready;
  policy_enabled_at = some at;
  policy_enabled_by = some actor;
}

abbrev pub disabled_row : Node → Node
disabled_row x = record x {
  policy_state = standby;
  policy_enabled_at = none;
  policy_enabled_by = none;
}

abbrev pub canary_row : ℕ → Node → Node
canary_row at x = record x {
  data_plane_state = direct_canary_passed;
  direct_canary_passed_at = some at;
}

abbrev pub admitted_row : ℕ → String → Node → Node
admitted_row at actor x = record x {
  data_plane_state = dns_admitted;
  dns_admitted_at = some at;
  dns_admitted_by = some actor;
  dns_removed_at = none;
  dns_removed_by = none;
}

abbrev pub removed_row : ℕ → String → Node → Node
removed_row at actor x = record x {
  data_plane_state = direct_canary_passed;
  dns_removed_at = some at;
  dns_removed_by = some actor;
}

-- The rows that they are for
abbrev pub registered_node : String → Node → Bool
registered_node node_id x = node_is node_id x && is_pending_verification x.status

abbrev pub verified_node : String → Node → Bool
verified_node node_id x = registered_node node_id x && is_set x.verified_at

abbrev pub beating_node : String → ℕ → Node → Bool
beating_node node_id since x = verified_node node_id x && at_least since x.last_heartbeat_at

-- `data_plane_state = 'dns_admitted'` in the row with this id
abbrev pub still_admitted : String → Database → Bool
still_admitted node_id db =
    maybe (select (node_is node_id) db.nodes) false (λ n. is_admitted n.data_plane_state)

-- `key_fingerprint` decodes a public key and hashes it; `none` where it does not decode.
unfoldable pub verify_node :
    (key_fingerprint : String → Option String) → String → String → String → ℕ → Database → Tx Bool
unfolding actor_ok
verify_node key_fingerprint node_id fingerprint actor verified_at db =
    if not (hex_text 32 node_id && hex_text 64 fingerprint && actor_ok actor)
    then unchanged db
    else maybe (select (node_is node_id) db.nodes) (unchanged db) λ n.
      if not (is_pending_verification n.status)
      then unchanged db
      else maybe (maybe n.public_key none key_fingerprint) (unchanged db) λ actual.
        if not (str_eq actual fingerprint)
        then unchanged db
        else ok (
          one_row (registered_node node_id) db,
          set_nodes (registered_node node_id) (verified_row verified_at (strip actor)) db,
        )

unfoldable pub revoke_node : String → Database → Tx Bool
revoke_node node_id db = if not (hex_text 32 node_id) then unchanged db else do
  guard (not (still_admitted node_id db)) Error.dns_still_admitted
  ok (one_row (node_is node_id) db, set_nodes (node_is node_id) revoked_row db)

-- The writes of a heartbeat: its nonce and the row of the node
abbrev pub record_beat : NonceRow → String → String → Database → Tx Bool
record_beat row ip agent_version db = do
  db' ← consume_heartbeat_nonce row db
  guard (one_row (verified_node row.node_id) db') Error.integrity_error
  ok (true, set_nodes (verified_node row.node_id) (beat_row row.accepted_at ip agent_version) db')

-- `canonical_ip` is `str(ipaddress.ip_address(ip))`, and `none` where that raises a ValueError. Every
-- failure is the result `False`, with nothing written.
unfoldable pub accept_node_heartbeat :
    (canonical_ip : String → Option String)
    → String
    → String
    → ℕ
    → String
    → String
    → Database
    → Tx Bool
accept_node_heartbeat canonical_ip node_id nonce_digest accepted_at remote_ip agent_version db =
    let row : NonceRow = record {
      node_id = node_id;
      purpose = "heartbeat";
      nonce_digest = nonce_digest;
      accepted_at = accepted_at;
    } in
    if not (hex_text 32 node_id && hex_text 64 nonce_digest && is_set (version agent_version))
    then unchanged db
    else maybe (canonical_ip remote_ip) (unchanged db)
        λ ip. or_return false db (record_beat row ip agent_version db)

unfoldable pub set_node_policy_state : String → PolicyState → String → ℕ → Database → Tx Bool
unfolding actor_ok
set_node_policy_state node_id state actor changed_at db =
    let enable = beating_node node_id (changed_at - heartbeat_freshness) in
    if not (hex_text 32 node_id && actor_ok actor)
    then unchanged db
    else if is_ready state
    then ok (one_row enable db, set_nodes enable (enabled_row changed_at (strip actor)) db)
    else do
      guard (not (still_admitted node_id db)) Error.dns_still_admitted
      ok (one_row (registered_node node_id) db, set_nodes (registered_node node_id) disabled_row db)

-- The state in which the direct canary may be confirmed, as the code tests it and as the UPDATE
-- repeats it
abbrev pub canary_may_pass : Node → Bool
canary_may_pass n =
    is_pending_verification n.status
    && is_set n.verified_at
    && is_ready n.policy_state
    && is_installed n.data_plane_state
    && is_set n.data_plane_installed_at
    && is_null n.dns_admitted_at

abbrev pub canary_node : String → Node → Bool
canary_node node_id x = node_is node_id x && canary_may_pass x

unfoldable pub mark_node_direct_canary_passed : String → String → ℕ → Database → Tx Bool
unfolding actor_ok
mark_node_direct_canary_passed node_id actor passed_at db = do
  guard (hex_text 32 node_id && actor_ok actor && ltb 0 passed_at) Error.invalid_request
  n ← found (select (node_is node_id) db.nodes) Error.no_such_node
  if is_canary_passed n.data_plane_state then unchanged db else do
    guard (canary_may_pass n) Error.not_eligible
    guard (one_row (canary_node node_id) db) Error.integrity_error
    ok (true, set_nodes (canary_node node_id) (canary_row passed_at) db)

-- The state in which a node may be admitted to DNS. A time is fresh from `fresh_after` on.
abbrev pub dns_may_admit : ℕ → Node → Bool
dns_may_admit fresh_after n =
    is_pending_verification n.status
    && is_set n.verified_at
    && is_ready n.policy_state
    && is_canary_passed n.data_plane_state
    && is_set n.data_plane_installed_at
    && is_set n.direct_canary_passed_at
    && at_least fresh_after n.last_heartbeat_at
    && at_least fresh_after n.last_snapshot_at
    && at_least fresh_after n.last_traffic_ack_at

abbrev pub admissible_node : String → ℕ → Node → Bool
admissible_node node_id fresh_after x = node_is node_id x && dns_may_admit fresh_after x

unfoldable pub mark_node_dns_admitted : String → String → ℕ → Database → Tx Bool
unfolding actor_ok
mark_node_dns_admitted node_id actor admitted_at db = do
  guard (hex_text 32 node_id && actor_ok actor && ltb 0 admitted_at) Error.invalid_request
  n ← found (select (node_is node_id) db.nodes) Error.no_such_node
  let admissible = admissible_node node_id (admitted_at - max_state_age)
  if is_admitted n.data_plane_state then unchanged db else do
    guard (dns_may_admit (admitted_at - max_state_age) n) Error.not_eligible
    guard (one_row admissible db) Error.integrity_error
    ok (true, set_nodes admissible (admitted_row admitted_at (strip actor)) db)

abbrev pub in_dns : String → Node → Bool
in_dns node_id x = node_is node_id x && is_admitted x.data_plane_state

unfoldable pub remove_node_dns_admission : String → String → ℕ → Database → Tx Bool
unfolding actor_ok
remove_node_dns_admission node_id actor removed_at db = do
  guard (hex_text 32 node_id && actor_ok actor && ltb 0 removed_at) Error.invalid_request
  n ← found (select (node_is node_id) db.nodes) Error.no_such_node
  if is_canary_passed n.data_plane_state && is_set n.dns_admitted_at && is_set n.dns_removed_at
      then unchanged db
      else do
        guard (is_admitted n.data_plane_state) Error.not_eligible
        guard (one_row (in_dns node_id) db) Error.integrity_error
        ok (true, set_nodes (in_dns node_id) (removed_row removed_at (strip actor)) db)
