-- ===== src/Nodes/Lifecycle/Guards.antt =====
-- What a node must satisfy before it is stopped or archived.
use hysteria2_panel.Prelude.{
  ℕ, ◌≡◌, ◌-◌, String, Bool, true, false, not, some, ok, arith, ◌&&◌, ◌==◌, leb, max, guard, found,
  ◌>>=◌, ◌>>◌, Result, guard-ok, guard-passed, found-ok, bind-ok, select, sum_where, Commits,
  commits_rules,
}
use hysteria2_panel.Nodes.Row.{
  Node, Command, Snapshot, OnlineCount, is_draining, is_pending_verification, is_ready, in_service,
}
use hysteria2_panel.Nodes.Database.{Database, Error, node_is, has_pending}
use hysteria2_panel.Nodes.Lifecycle.{snapshot_is, count_is, stop_checks, request_node_stop}

-- The snapshot is at most `window` seconds old in each of its three times.
abbrev pub is_fresh : ℕ → ℕ → Snapshot → Bool
is_fresh at window s =
    leb (at - window) s.accepted_at
    && leb (at - window) s.observed_at
    && leb (at - window) s.traffic_acked_at

-- The last snapshot of the node is fresh and there are no devices online on it.
pub record IsQuiet (node_id : String) (at window : ℕ) (db : Database) : Type 0 where
  pub last : Snapshot
  pub stored : select (snapshot_is node_id) db.snapshots ≡ some last
  pub fresh : is_fresh at window last ≡ true
  pub empty : sum_where (count_is node_id) (λ c. c.count) db.online_counts ≡ 0

pub record IsStoppable (node_id : String) (at : ℕ) (removed : Bool) (window : ℕ) (db : Database)
    : Type 0 where
  pub row : Node
  pub stored : select (node_is node_id) db.nodes ≡ some row
  pub registered : (is_pending_verification row.status && is_ready row.policy_state) ≡ true
  pub draining : is_draining row.lifecycle_state ≡ true
  pub dns_removed : removed ≡ true
  pub quiet : IsQuiet node_id at window db
  pub idle : has_pending node_id db ≡ false

stop_checks-ok :
    (node_id : String) (n : Node) (at : ℕ) (removed : Bool) (window : ℕ) (db : Database)
    → stop_checks node_id n at removed window db ≡ ok tt
    → (is_draining n.lifecycle_state ≡ true) × (removed ≡ true) × IsQuiet node_id at window db
stop_checks-ok node_id n at removed window db e =
    let online = sum_where (count_is node_id) (λ (c : OnlineCount). c.count) db.online_counts in
    let last : Result Error Unit = guard (online == 0) Error.devices_online in
    let fresh = λ (s : Snapshot). guard (is_fresh at window s) Error.stale_state >> last in
    let quiet = found (select (snapshot_is node_id) db.snapshots) Error.stale_state >>= fresh in
    let (draining, e1) =
      guard-ok (is_draining n.lifecycle_state) Error.not_draining
        (guard removed Error.dns_not_removed >> quiet) e in
    let (dns, e2) = guard-ok removed Error.dns_not_removed quiet e1 in
    let (s, stored, e3) =
      bind-ok (found (select (snapshot_is node_id) db.snapshots) Error.stale_state) fresh e2 in
    let (is_new, e4) = guard-ok (is_fresh at window s) Error.stale_state last e3 in
    (
      draining,
      dns,
      record {
        last = s;
        stored = found-ok (select (snapshot_is node_id) db.snapshots) Error.stale_state s stored;
        fresh = is_new;
        empty = ground (arith, guard-passed (online == 0) Error.devices_online e4);
      },
    )

stoppable :
    (node_id : String) (n : Node) (at : ℕ) (removed : Bool) (window : ℕ) (db : Database)
    → select (node_is node_id) db.nodes ≡ some n
    → (is_pending_verification n.status && is_ready n.policy_state && in_service n.lifecycle_state)
      ≡ true
    → stop_checks node_id n at removed window db ≡ ok tt
    → not (has_pending node_id db) ≡ true
    → IsStoppable node_id at removed window db
stoppable node_id n at removed window db stored served checked idle =
    let (draining, dns, quiet) = stop_checks-ok node_id n at removed window db checked in
    record {
      row = n;
      stored = stored;
      registered = ground arith;
      draining = draining;
      dns_removed = dns;
      quiet = quiet;
      idle = ground arith;
    }

-- A stop that is no emergency and does not raise was asked of a registered node under the protocol
-- that is draining, with its removal from DNS verified, with a snapshot that is fresh in its three
-- times, with no device online and no command pending.
pub stop_is_guarded :
    (command_id node_id actor : String) (at : ℕ) (removed : Bool) (window : ℕ) (db db' : Database)
    (c : Command)
    → request_node_stop command_id node_id actor at removed false window db ≡ ok (c, db')
    → IsStoppable node_id at removed (max 1 window) db
unfolding request_node_stop
stop_is_guarded command_id node_id actor at removed window db db' c e =
    let passed : Commits (λ (d : Database). IsStoppable node_id at removed (max 1 window) db)
        (request_node_stop command_id node_id actor at removed false window db) =
      search (commits_rules, stoppable) depth 14 in
    passed.at c db' e
