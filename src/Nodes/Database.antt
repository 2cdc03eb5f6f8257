-- ===== src/Nodes/Database.antt =====
-- The tables of the node control plane, the exceptions that its transactions raise, and the
-- statements that several of them share.
use hysteria2_panel.Prelude.{
  ℕ, String, Bool, none, Option, List, [], ◌∷◌, ◌++◌, is_null, str_eq, ◌&&◌, ltb, row_count, Result,
  ok, err, Commits, Commits-ok, guard, ◌>>◌, ◌==◌,
}
use hysteria2_panel.Nodes.Row.{
  Node, Command, Grant, Enrollment, Snapshot, OnlineCount, AuthDecision, NonceRow, User, Profile,
  Lease, Kind,
}
use hysteria2_panel.Nodes.UsageRows.{
  Origin, OriginUser, DailyTraffic, Budget, HourlyTraffic, AppliedBatch, NodeBatch, Checkpoint,
}

pub record Database : Type 0 where
  pub nodes : List Node
  pub enrollments : List Enrollment
  pub grants : List Grant
  pub commands : List Command
  pub snapshots : List Snapshot
  pub online_counts : List OnlineCount
  pub auth_decisions : List AuthDecision
  pub request_nonces : List NonceRow
  pub heartbeat_nonces : List NonceRow
  pub users : List User
  pub retired_names : List String
  pub profiles : List Profile
  pub leases : List Lease
  pub origins : List Origin
  pub origin_users : List OriginUser
  pub daily : List DailyTraffic
  pub budgets : List Budget
  pub hourly : List HourlyTraffic
  pub applied_batches : List AppliedBatch
  pub node_batches : List NodeBatch
  pub checkpoints : List Checkpoint
  pub reset_period : Option ℕ

abbrev pub empty_database : Database
empty_database = record {
  nodes = [];
  enrollments = [];
  grants = [];
  commands = [];
  snapshots = [];
  online_counts = [];
  auth_decisions = [];
  request_nonces = [];
  heartbeat_nonces = [];
  users = [];
  retired_names = [];
  profiles = [];
  leases = [];
  origins = [];
  origin_users = [];
  daily = [];
  budgets = [];
  hourly = [];
  applied_batches = [];
  node_batches = [];
  checkpoints = [];
  reset_period = none;
}

-- `ValueError`, told apart by its message where a caller shows it, `sqlite3.IntegrityError`,
-- `KeyError`, `ConflictError` and `OverflowError`
pub data Error : Type 0 where
  invalid_request region_taken no_such_node not_eligible dns_still_admitted not_draining
        dns_not_removed stale_state devices_online pending_command not_stopped agent_too_old
        node_offline integrity_error no_such_user changed_meanwhile name_taken overflow :
      Error

-- A transaction: the tables are kept only if it does not raise.
abbrev pub Tx : Type 0 → Type 0
Tx A = Result Error (A × Database)

-- `MAX_STATE_AGE_SECONDS`, `NODE_HEARTBEAT_FRESHNESS_SECONDS`
abbrev pub max_state_age : ℕ
max_state_age = 43

abbrev pub heartbeat_freshness : ℕ
heartbeat_freshness = 150

-- `WHERE node_id = ?` on `nodes`
abbrev pub node_is : String → Node → Bool
node_is node_id n = str_eq n.node_id node_id

-- `WHERE node_id = ? AND acked_at IS NULL` on `node_commands`
abbrev pub unacked : String → Command → Bool
unacked node_id c = str_eq c.node_id node_id && is_null c.acked_at

abbrev pub has_pending : String → Database → Bool
has_pending node_id db = ltb 0 (row_count (unacked node_id) db.commands)

abbrev pub fixed_command : String → String → Kind → ℕ → Command
fixed_command command_id node_id kind created_at = record {
  command_id = command_id;
  node_id = node_id;
  kind = kind;
  payload = [];
  created_at = created_at;
  acked_at = none;
  attempts = 0;
  delivered_at = none;
  next_attempt_at = created_at;
  quota_generations = none;
  last_error = none;
}

abbrev pub command_is : String → Command → Bool
command_is command_id c = str_eq c.command_id command_id

-- An INSERT into `node_commands`, whose primary key is `command_id`
unfoldable pub insert_command : Command → Database → Result Error Database
insert_command c db = do
  guard (row_count (command_is c.command_id) db.commands == 0) Error.integrity_error
  ok (record db { commands = db.commands ++ c ∷ [] })

-- `except (sqlite3.IntegrityError, ValueError): return a`, after the transaction was rolled back
abbrev pub or_return : {A : Type 0} → A → Database → Tx A → Tx A
or_return a db (ok r) = ok r
or_return a db (err _) = ok (a, db)

pub Commits-or_return {κ} :
    {A : Type 0} {P : Database → Type κ} (a : A) (db : Database) (m : Tx A)
    → P db
    → Commits P m
    → Commits P (or_return a db m)
Commits-or_return a db (ok r) c h = h
Commits-or_return a db (err e) c h = Commits-ok a db c
