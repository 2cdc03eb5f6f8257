-- ===== src/Nodes/Enrollment.antt =====
-- How a node registers, or its enrollment is withdrawn: `revoke_node_enrollment` and
-- `consume_node_enrollment` of `class Database` in hysteria2_panel.py.
pub mod Retry
pub mod Announcement
use hysteria2_panel.Prelude.{
  ℕ, String, Bool, true, false, not, ◌&&◌, Option, none, some, ok, guard, maybe, select, update,
  row_count, ◌==◌, leb, if◌then◌else◌, is_null, is_set, str_eq, ◌>>◌, ◌>>=◌,
}
use hysteria2_panel.Nodes.Row.{
  pending_registration, pending_verification, revoked, Status, Node, Enrollment,
  is_pending_verification,
}
use hysteria2_panel.Nodes.Database.{Database, Error, Tx, node_is, or_return}

abbrev pub enrollment_is : String → Enrollment → Bool
enrollment_is enrollment_id e = str_eq e.enrollment_id enrollment_id

abbrev pub dropped_node : Node → Node
dropped_node n = record n { status = revoked }

unfoldable pub revoke_node_enrollment : String → ℕ → Database → Tx Bool
revoke_node_enrollment enrollment_id revoked_at db =
    maybe (select (enrollment_is enrollment_id) db.enrollments) (ok (false, db)) λ e.
      if is_set e.consumed_at
      then ok (false, db)
      else if is_null e.revoked_at
      then ok (
        true,
        record db {
          enrollments =
              update (enrollment_is enrollment_id) (λ x. record x { revoked_at = some revoked_at })
                db.enrollments;
          nodes = update (node_is e.node_id) dropped_node db.nodes;
        },
      )
      else ok (true, db)

-- What a node tells of itself when it registers
pub record Registration : Type 0 where
  pub public_key : String
  pub observed_ip : String
  pub hostname : String
  pub platform : String
  pub architecture : String
  pub agent_version : String

abbrev pub column_is : Option String → String → Bool
column_is none v = false
column_is (some u) v = str_eq u v

-- The row of a node that registered, as it was when it did
unfoldable pub same_registration : Registration → Node → Bool
same_registration r n =
    is_pending_verification n.status
    && column_is n.observed_ip r.observed_ip
    && column_is n.public_key r.public_key
    && column_is n.hostname r.hostname
    && column_is n.platform r.platform
    && column_is n.architecture r.architecture
    && column_is n.agent_version r.agent_version

abbrev pub registered_row : Registration → ℕ → Node → Node
registered_row r at n = record n {
  observed_ip = some r.observed_ip;
  status = pending_verification;
  public_key = some r.public_key;
  hostname = some r.hostname;
  platform = some r.platform;
  architecture = some r.architecture;
  agent_version = some r.agent_version;
  registered_at = some at;
  last_seen_at = some at;
  verified_at = some at;
  verified_by = some "system:one-click-enrollment";
}

abbrev pub is_unregistered : Status → Bool
is_unregistered pending_registration = true
is_unregistered _ = false

abbrev pub announced_node : String → Node → Bool
announced_node node_id n = node_is node_id n && is_unregistered n.status

abbrev pub open_enrollment : String → Enrollment → Bool
open_enrollment enrollment_id e =
    enrollment_is enrollment_id e && is_null e.consumed_at && is_null e.revoked_at

-- The writes of a registration; `public_key` is unique.
abbrev pub register : Enrollment → Registration → ℕ → Database → Tx (Option String)
register e r at db =
    if not (row_count (open_enrollment e.enrollment_id) db.enrollments == 1)
    then ok (none, db)
    else do
      guard
          (row_count (λ n. column_is n.public_key r.public_key && not (node_is e.node_id n))
              db.nodes
            == 0)
          Error.integrity_error
      guard (row_count (announced_node e.node_id) db.nodes == 1) Error.integrity_error
      ok (
        some e.node_id,
        record db {
          enrollments =
              update (open_enrollment e.enrollment_id) (λ x. record x { consumed_at = some at })
                db.enrollments;
          nodes = update (announced_node e.node_id) (registered_row r at) db.nodes;
        },
      )

-- The enrollment may be used now and from there.
unfoldable pub usable : Enrollment → Node → String → ℕ → Bool
usable e n observed_ip at =
    is_null e.revoked_at
    && not (leb e.expires_at at)
    && maybe n.expected_ip true (λ ip. str_eq ip observed_ip)

unfoldable pub consume_node_enrollment : String → Registration → ℕ → Database → Tx (Option String)
unfolding usable same_registration
consume_node_enrollment token_digest r at db =
    maybe (select (λ e. str_eq e.token_digest token_digest) db.enrollments) (ok (none, db)) λ e.
      maybe (select (node_is e.node_id) db.nodes) (ok (none, db)) λ n.
        if not (usable e n r.observed_ip at)
        then ok (none, db)
        else if is_set e.consumed_at
        then ok (if same_registration r n then some e.node_id else none, db)
        else or_return none db (register e r at db)
