-- ===== src/Nodes/Commands.antt =====
-- The commands of a node: `queue_node_command` and `ack_node_command` of
-- `class Database` in hysteria2_panel.py. The id of a new command is an argument.
pub mod Due
pub mod Acks
pub mod Polls
pub mod Delivery
use hysteria2_panel.Prelude.{
  ℕ, ◌+◌, ◌*◌, String, Bool, true, false, not, ◌&&◌, ◌||◌, none, some, List, [], ◌∷◌, ok, guard,
  maybe, found, ◌>>=◌, ◌>>◌, select, update, delete, row_count, ◌==◌, leb, ltb, length,
  if◌then◌else◌, is_null, is_set, str_eq, hex_text, name_text,
}
use hysteria2_panel.Nodes.Row.{
  revoked, standby, stopped, active, archived, direct_canary_passed, not_issued, Node, Command,
  Kind, NonceRow, is_pending_verification, is_revoked, is_ready, in_service, is_stopping,
  is_starting, is_disconnecting, is_stop, is_start, is_uninstall, is_kick,
}
use hysteria2_panel.Nodes.Database.{
  Database, Error, Tx, node_is, command_is, insert_command, fixed_command,
}
use hysteria2_panel.Nodes.Nonce.{consume_request_nonce}
use hysteria2_panel.Nodes.Lifecycle.{snapshot_is, count_is, or_else}

-- Texts that stand twice
has_twice : List String → Bool
has_twice [] = false
has_twice (x ∷ xs) = ltb 0 (row_count (λ y. str_eq y x) xs) || has_twice xs

all_names : List String → Bool
all_names [] = true
all_names (x ∷ xs) = name_text x && all_names xs

unfoldable pub validate_node_command : Kind → List String → Bool
unfolding has_twice all_names
validate_node_command kind users =
    if is_kick kind
    then leb 1 (length users) && leb (length users) 100 && not (has_twice users) && all_names users
    else length users == 0

unfoldable pub queue_node_command : String → String → Kind → List String → ℕ → Database → Tx Command
queue_node_command command_id node_id kind users created_at db = do
  guard (hex_text 32 node_id && validate_node_command kind users) Error.invalid_request
  n ←
      found
        (select
          (λ x.
            node_is node_id x
            && is_ready x.policy_state
            && is_pending_verification x.status
            && in_service x.lifecycle_state)
          db.nodes)
        Error.not_eligible
  let command = record (fixed_command command_id node_id kind created_at) { payload = users }
  db' ← insert_command command db
  ok (command, db')

-- What an acknowledged command does to the row of its node
unfoldable pub acknowledged : Kind → ℕ → Node → Node
acknowledged kind at x =
    if is_stop kind
    then (if is_stopping x.lifecycle_state
        then record x {
          lifecycle_state = stopped;
          lifecycle_changed_at = some at;
          data_plane_state = direct_canary_passed;
          dns_admitted_at = none;
          dns_admitted_by = none;
        }
        else x)
    else if is_start kind
    then (if is_starting x.lifecycle_state
        then record x {
          lifecycle_state = active;
          lifecycle_changed_at = some at;
          data_plane_state = direct_canary_passed;
          dns_removed_at = none;
          dns_removed_by = none;
        }
        else x)
    else if is_uninstall kind
    then (if is_disconnecting x.lifecycle_state
        then record x {
          status = revoked;
          policy_state = standby;
          lifecycle_state = archived;
          lifecycle_changed_at = some at;
          data_plane_state = not_issued;
          dns_admitted_at = none;
          dns_admitted_by = none;
        }
        else x)
    else x

-- What is cleared when a node acknowledges that it was uninstalled
abbrev pub forgotten : String → ℕ → Database → Database
forgotten node_id at db = record db {
  grants =
      update (λ g. str_eq g.node_id node_id && is_null g.acknowledged_at)
        (λ g. record g { revoked_at = or_else g.revoked_at at }) db.grants;
  online_counts = delete (count_is node_id) db.online_counts;
  snapshots = delete (snapshot_is node_id) db.snapshots;
}

unfoldable pub forget_node : Kind → String → ℕ → Database → Database
forget_node kind node_id at db = if is_uninstall kind then forgotten node_id at db else db

abbrev pub ack_nonce : String → String → ℕ → NonceRow
ack_nonce node_id nonce_digest accepted_at = record {
  node_id = node_id;
  purpose = "command-ack";
  nonce_digest = nonce_digest;
  accepted_at = accepted_at;
}

-- `WHERE command_id = ? AND node_id = ?`
abbrev pub command_of : String → String → Command → Bool
command_of command_id node_id c = command_is command_id c && str_eq c.node_id node_id

-- `DELETE FROM node_commands WHERE acked_at < ?`, 30 days back
abbrev pub long_acked : ℕ → Command → Bool
long_acked at c = maybe c.acked_at false (λ t. ltb (t + 30 * 86400) at)

-- The tables after `ok` was acknowledged for the first time
unfoldable pub complete_command : String → Command → ℕ → Database → Database
unfolding acknowledged forget_node
complete_command node_id c at db = forget_node c.kind node_id at (record db {
  nodes = update (node_is node_id) (acknowledged c.kind at) db.nodes;
  commands = delete (long_acked at) (
      update (command_of c.command_id node_id)
        (λ x. record x { acked_at = some at; last_error = none }) db.commands);
})

-- `error_code or "FAILED"`
abbrev pub failed_row : String → Command → Command
failed_row error_code x = record x {
  last_error = some (if str_eq error_code "" then "FAILED" else error_code);
}

-- The writes of an acknowledgement, after its checks
abbrev pub record_ack : String → Command → Bool → String → ℕ → Database → Tx Bool
record_ack node_id c done error_code at db =
    if is_set c.acked_at
    then ok (true, db)
    else if done
    then ok (true, complete_command node_id c at db)
    else ok (
      false,
      record db {
        commands = update (command_of c.command_id node_id) (failed_row error_code) db.commands;
      },
    )

-- A revoked node may only acknowledge its uninstallation.
abbrev pub may_ack : Command → Bool → Node → Bool
may_ack c done n =
    not (is_revoked n.status && (is_ready n.policy_state || not (is_uninstall c.kind) || not done))

unfoldable pub ack_node_command : String → String → Bool → String → String → ℕ → Database → Tx Bool
ack_node_command node_id command_id done error_code nonce_digest accepted_at db = do
  db' ← consume_request_nonce (ack_nonce node_id nonce_digest accepted_at) db
  c ← found (select (command_of command_id node_id) db'.commands) Error.integrity_error
  n ← found (select (node_is node_id) db'.nodes) Error.integrity_error
  guard (may_ack c done n) Error.integrity_error
  record_ack node_id c done error_code accepted_at db'
