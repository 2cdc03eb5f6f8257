-- ===== src/Nodes/Lifecycle.antt =====
-- How a node drains, stops, resumes, is archived, is disconnected and is deleted:
-- `begin_node_drain`, `request_node_stop`, `request_node_resume`, `archive_stopped_node`,
-- `request_node_disconnect` and `delete_node_pairing` of `class Database` in hysteria2_panel.py.
-- A new command's id, `uuid.uuid4().hex`, is an argument.
pub mod Guards
use hysteria2_panel.Prelude.{
  ℕ, ◌-◌, String, Bool, true, false, not, ◌&&◌, Option, none, some, Result, ok, guard, maybe, found,
  ◌>>=◌, ◌>>◌, select, update, delete, row_count, sum_where, ◌==◌, leb, max, if◌then◌else◌, is_null,
  is_set, at_least, str_eq, hex_text, name_text, version, version_ge,
}
use hysteria2_panel.Nodes.Row.{
  revoked, standby, draining, stopping, starting, disconnecting, archived, stop_data_plane,
  start_data_plane, uninstall_node, Node, Command, Enrollment, Snapshot, OnlineCount,
  is_pending_verification, is_revoked, is_ready, is_admitted, has_data_plane, in_service,
  is_draining, is_stopped, is_uninstall,
}
use hysteria2_panel.Nodes.Database.{
  Database, Error, Tx, node_is, unacked, has_pending, fixed_command, insert_command,
}

abbrev pub one_node : (Node → Bool) → Database → Bool
one_node test db = row_count test db.nodes == 1

abbrev pub change_node : String → (Node → Node) → Database → Database
change_node node_id change db = record db { nodes = update (node_is node_id) change db.nodes }

-- `WHERE node_id = ?` on `node_online_snapshots` and `node_online_counts`
abbrev pub snapshot_is : String → Snapshot → Bool
snapshot_is node_id s = str_eq s.node_id node_id

abbrev pub count_is : String → OnlineCount → Bool
count_is node_id c = str_eq c.node_id node_id

-- The rows that the UPDATEs below write
abbrev pub draining_row : ℕ → String → Node → Node
draining_row at actor x = record x {
  lifecycle_state = draining;
  lifecycle_changed_at = some at;
  lifecycle_changed_by = some actor;
}

abbrev pub stopping_row : ℕ → String → Bool → Node → Node
stopping_row at actor dns_removed_verified x = record x {
  lifecycle_state = stopping;
  lifecycle_changed_at = some at;
  lifecycle_changed_by = some actor;
  dns_removed_at = if dns_removed_verified then some at else x.dns_removed_at;
  dns_removed_by = if dns_removed_verified then some actor else x.dns_removed_by;
}

abbrev pub starting_row : ℕ → String → Node → Node
starting_row at actor x = record x {
  lifecycle_state = starting;
  lifecycle_changed_at = some at;
  lifecycle_changed_by = some actor;
}

abbrev pub archived_row : ℕ → String → Node → Node
archived_row at actor x = record x {
  lifecycle_state = archived;
  lifecycle_changed_at = some at;
  lifecycle_changed_by = some actor;
}

abbrev pub disconnecting_row : ℕ → String → Node → Node
disconnecting_row at actor x = record x {
  lifecycle_state = disconnecting;
  lifecycle_changed_at = some at;
  lifecycle_changed_by = some actor;
}

abbrev pub deleted_row : ℕ → String → Node → Node
deleted_row at actor x = record x {
  status = revoked;
  policy_state = standby;
  lifecycle_state = archived;
  lifecycle_changed_at = some at;
  lifecycle_changed_by = some actor;
}

-- Registered, under the protocol and admitted to DNS
abbrev pub drainable : Node → Bool
drainable n =
    is_pending_verification n.status
    && is_ready n.policy_state
    && is_admitted n.data_plane_state
    && in_service n.lifecycle_state

unfoldable pub begin_node_drain : String → String → ℕ → Database → Tx Bool
begin_node_drain node_id actor changed_at db = do
  guard (hex_text 32 node_id && name_text actor) Error.invalid_request
  n ← found (select (node_is node_id) db.nodes) Error.not_eligible
  guard (drainable n) Error.not_eligible
  if is_draining n.lifecycle_state
      then ok (false, db)
      else ok (true, change_node node_id (draining_row changed_at actor) db)

-- The checks of a stop that is no emergency
abbrev pub stop_checks : String → Node → ℕ → Bool → ℕ → Database → Result Error Unit
stop_checks node_id n changed_at dns_removed_verified freshness db = do
  guard (is_draining n.lifecycle_state) Error.not_draining
  guard dns_removed_verified Error.dns_not_removed
  s ← found (select (snapshot_is node_id) db.snapshots) Error.stale_state
  guard
      (leb (changed_at - freshness) s.accepted_at
        && leb (changed_at - freshness) s.observed_at
        && leb (changed_at - freshness) s.traffic_acked_at)
      Error.stale_state
  guard (sum_where (count_is node_id) (λ c. c.count) db.online_counts == 0) Error.devices_online

unfoldable pub request_node_stop :
    String → String → String → ℕ → Bool → Bool → ℕ → Database → Tx Command
request_node_stop command_id node_id actor changed_at dns_removed_verified emergency freshness db =
    do
      guard (hex_text 32 node_id && name_text actor) Error.invalid_request
      n ← found (select (node_is node_id) db.nodes) Error.not_eligible
      guard
          (is_pending_verification n.status
            && is_ready n.policy_state
            && in_service n.lifecycle_state)
          Error.not_eligible
      if emergency
          then ok tt
          else stop_checks node_id n changed_at dns_removed_verified (max 1 freshness) db
      guard (not (has_pending node_id db)) Error.pending_command
      let command = fixed_command command_id node_id stop_data_plane changed_at
      db' ← insert_command command db
      ok (command, change_node node_id (stopping_row changed_at actor dns_removed_verified) db')

unfoldable pub request_node_resume : String → String → String → ℕ → Database → Tx Command
request_node_resume command_id node_id actor changed_at db = do
  guard (hex_text 32 node_id && name_text actor) Error.invalid_request
  n ← found (select (node_is node_id) db.nodes) Error.not_stopped
  guard
      (is_pending_verification n.status && is_ready n.policy_state && is_stopped n.lifecycle_state)
      Error.not_stopped
  guard (not (has_pending node_id db)) Error.pending_command
  let command = fixed_command command_id node_id start_data_plane changed_at
  db' ← insert_command command db
  ok (command, change_node node_id (starting_row changed_at actor) db')

abbrev pub stopped_node : String → Node → Bool
stopped_node node_id x =
    node_is node_id x && is_stopped x.lifecycle_state && is_pending_verification x.status

unfoldable pub archive_stopped_node : String → String → ℕ → Database → Tx Bool
archive_stopped_node node_id actor changed_at db = do
  guard (hex_text 32 node_id && name_text actor) Error.invalid_request
  guard (not (has_pending node_id db)) Error.pending_command
  guard (one_node (stopped_node node_id) db) Error.not_stopped
  ok (
    true,
    record db { nodes = update (stopped_node node_id) (archived_row changed_at actor) db.nodes },
  )

-- A stored version is three numbers: both the registration and the heartbeat check it.
abbrev pub agent_at_least : ℕ × ℕ × ℕ → Option String → Bool
agent_at_least bound none = false
agent_at_least bound (some v) = maybe (version v) false (λ parts. version_ge parts bound)

-- Verified, under the protocol, with a data plane in service
abbrev pub disconnectable : Node → Bool
disconnectable n =
    is_pending_verification n.status
    && is_set n.verified_at
    && is_ready n.policy_state
    && has_data_plane n.data_plane_state
    && in_service n.lifecycle_state

unfoldable pub request_node_disconnect : String → String → String → ℕ → ℕ → Database → Tx Command
request_node_disconnect command_id node_id actor changed_at freshness db = do
  guard (hex_text 32 node_id && name_text actor) Error.invalid_request
  n ← found (select (node_is node_id) db.nodes) Error.not_eligible
  guard (disconnectable n) Error.not_eligible
  guard (agent_at_least (0, 39, 0) n.agent_version) Error.agent_too_old
  guard (at_least (changed_at - max 1 freshness) n.last_heartbeat_at) Error.node_offline
  guard (not (has_pending node_id db)) Error.pending_command
  let command = fixed_command command_id node_id uninstall_node changed_at
  db' ← insert_command command db
  ok (command, change_node node_id (disconnecting_row changed_at actor) db')

-- `COALESCE(column, ?)`
abbrev pub or_else : Option ℕ → ℕ → Option ℕ
or_else none t = some t
or_else (some u) t = some u

-- The commands that a deleted pairing drops: all that are pending but the uninstallation
abbrev pub dropped_command : String → Command → Bool
dropped_command node_id c = unacked node_id c && not (is_uninstall c.kind)

abbrev pub unused_enrollment : String → Enrollment → Bool
unused_enrollment node_id e = str_eq e.node_id node_id && is_null e.consumed_at

abbrev pub withdrawn : ℕ → Enrollment → Enrollment
withdrawn at e = record e { revoked_at = or_else e.revoked_at at }

unfoldable pub delete_node_pairing : String → String → ℕ → Database → Tx Bool
delete_node_pairing node_id actor changed_at db = do
  guard (hex_text 32 node_id && name_text actor) Error.invalid_request
  n ← found (select (node_is node_id) db.nodes) Error.no_such_node
  if is_revoked n.status
      then ok (false, db)
      else ok (
        true,
        record db {
          nodes = update (node_is node_id) (deleted_row changed_at actor) db.nodes;
          enrollments = update (unused_enrollment node_id) (withdrawn changed_at) db.enrollments;
          grants =
              update (λ g. str_eq g.node_id node_id && is_null g.acknowledged_at)
                (λ g. record g { revoked_at = or_else g.revoked_at changed_at }) db.grants;
          commands = delete (dropped_command node_id) db.commands;
          online_counts = delete (count_is node_id) db.online_counts;
          snapshots = delete (snapshot_is node_id) db.snapshots;
        },
      )
