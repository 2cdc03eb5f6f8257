-- ===== src/Nodes/Commands/Acks.antt =====
-- What an acknowledgement does to its node, and what a repeated one does not do.
use hysteria2_panel.Prelude.{
  ℕ, ◌≡◌, refl, subst, String, Bool, true, not, some, List, ok, arith, ◌&&◌, ◌||◌, ◌>>=◌, ◌>>◌,
  is_null, is_set, guard, found, select, update, Commits, Commits-bind, Commits-ok, Commits-if,
  commits_rules, if_cases, select_holds, select-update,
}
use hysteria2_panel.Nodes.Row.{
  Node, Command, NonceRow, is_stop, is_start, is_uninstall, is_stopping, is_starting,
  is_disconnecting, is_stopped, is_active, is_archived, is_revoked, is_ready, is_canary_passed,
  has_data_plane,
}
use hysteria2_panel.Nodes.Database.{Database, Error, Tx, node_is}
use hysteria2_panel.Nodes.Nonce.{consume_request_nonce}
use hysteria2_panel.Nodes.Nonce.Writes.{consumed}
use hysteria2_panel.Nodes.Commands.{
  ack_nonce, may_ack, record_ack, command_of, acknowledged, forget_node, complete_command,
  ack_node_command,
}

-- The row `m` of a node after the command `k` was acknowledged: what `n` waited for has happened.
pub record IsCompleted (k : Command) (n m : Node) : Type 0 where
  pub stop :
      (not (is_stop k.kind && is_stopping n.lifecycle_state)
        || is_stopped m.lifecycle_state
          && is_canary_passed m.data_plane_state
          && is_null m.dns_admitted_at)
      ≡ true
  pub start :
      (not (is_start k.kind && is_starting n.lifecycle_state)
        || is_active m.lifecycle_state
          && is_canary_passed m.data_plane_state
          && is_null m.dns_removed_at)
      ≡ true
  pub uninstall :
      (not (is_uninstall k.kind && is_disconnecting n.lifecycle_state)
        || is_archived m.lifecycle_state
          && is_revoked m.status
          && not (is_ready m.policy_state)
          && not (has_data_plane m.data_plane_state)
          && is_null m.dns_admitted_at)
      ≡ true

acknowledged-IsCompleted :
    (k : Command) (at : ℕ) (n : Node) → IsCompleted k n (acknowledged k.kind at n)
unfolding acknowledged
acknowledged-IsCompleted k at n = ground arith

acknowledged-node :
    (node_id : String) (k : Command) (at : ℕ) (n : Node)
    → node_is node_id n ≡ true
    → node_is node_id (acknowledged k.kind at n) ≡ true
unfolding acknowledged
acknowledged-node node_id k at n h = ground arith

completed_node :
    (node_id : String) (k : Command) (at : ℕ) (db : Database) (n : Node)
    → select (node_is node_id) db.nodes ≡ some n
    → select (node_is node_id) (complete_command node_id k at db).nodes
      ≡ some (acknowledged k.kind at n)
unfolding complete_command forget_node
completed_node node_id k at db n here =
    if_cases (λ (d : Database). select (node_is node_id) d.nodes ≡ some (acknowledged k.kind at n))
      (is_uninstall k.kind) _ _ (λ _. updated) (λ _. updated)
  where
    updated :
        select (node_is node_id) (update (node_is node_id) (acknowledged k.kind at) db.nodes)
        ≡ some (acknowledged k.kind at n)
    updated =
        select-update (node_is node_id) (acknowledged k.kind at) db.nodes n here
          (acknowledged-node node_id k at n (select_holds (node_is node_id) db.nodes n here))

module _ (node_id command_id : String) (done : Bool) (error nonce_digest : String) (at : ℕ) where
  after_nonce : Database → Tx Bool
  after_nonce d =
      found (select (command_of command_id node_id) d.commands) Error.integrity_error >>= λ k.
      found (select (node_is node_id) d.nodes) Error.integrity_error >>= λ n.
      guard (may_ack k done n) Error.integrity_error >> record_ack node_id k done error at d

  -- A property of all that an acknowledgement commits, shown for tables with any nonces
  ack_commits :
      (P : Database → Type 0) (db : Database)
      → ((table : List NonceRow) → Commits P (after_nonce (record db { request_nonces = table })))
      → Commits P (ack_node_command node_id command_id done error nonce_digest at db)
  unfolding ack_node_command after_nonce
  ack_commits P db h =
      Commits-bind (consume_request_nonce (ack_nonce node_id nonce_digest at) db) after_nonce
        (λ d e.
          let (table, same) = consumed (ack_nonce node_id nonce_digest at) db d e in
          subst (λ x. Commits P (after_nonce x)) same (h table))

-- The tables hold the row of the node as the command leaves it.
pub record IsEnded (node_id : String) (k : Command) (n : Node) (d : Database) : Type 0 where
  pub row : Node
  pub stored : select (node_is node_id) d.nodes ≡ some row
  pub completed : IsCompleted k n row

module _ (node_id command_id error : String) (at : ℕ) (db : Database) (k : Command) (n : Node)
    (command : select (command_of command_id node_id) db.commands ≡ some k)
    (here : select (node_is node_id) db.nodes ≡ some n) (pending : is_null k.acked_at ≡ true) where
  ended :
      (table : List NonceRow)
      → IsEnded node_id k n (complete_command node_id k at (record db { request_nonces = table }))
  ended table = record {
    row = acknowledged k.kind at n;
    stored = completed_node node_id k at (record db { request_nonces = table }) n here;
    completed = acknowledged-IsCompleted k at n;
  }

  not_acked : (d : Database) → is_set k.acked_at ≡ true → IsEnded node_id k n d
  not_acked d h = absurd (ground arith)

  ack_written :
      (table : List NonceRow) (k' : Command)
      → select (command_of command_id node_id) db.commands ≡ some k'
      → Commits
          (IsEnded node_id k n)
          (record_ack node_id k' true error at (record db { request_nonces = table }))
  ack_written table k' found_it =
      let same : k ≡ k' = cc in
      let written : Commits (IsEnded node_id k n)
          (record_ack node_id k true error at (record db { request_nonces = table })) =
        search (commits_rules, ended, not_acked) depth 6 in
      subst
        (λ x.
          Commits (IsEnded node_id k n)
            (record_ack node_id x true error at (record db { request_nonces = table })))
        same written

-- An acknowledgement that reports success, of a command that was not acknowledged before, ends the
-- state in which the node waited for it: a stopping node is stopped and out of DNS, a starting node
-- is active again and no longer marked as removed from DNS, and a disconnecting node is archived,
-- revoked, off the protocol and without a data plane.
pub ack_ends_waiting :
    (node_id command_id error nonce_digest : String) (at : ℕ) (db db' : Database) (k : Command)
    (n : Node) (b : Bool)
    → select (command_of command_id node_id) db.commands ≡ some k
    → select (node_is node_id) db.nodes ≡ some n
    → is_null k.acked_at ≡ true
    → ack_node_command node_id command_id true error nonce_digest at db ≡ ok (b, db')
    → IsEnded node_id k n db'
unfolding after_nonce
ack_ends_waiting node_id command_id error nonce_digest at db db' k n b command here pending e =
    let written = ack_written node_id command_id error at db k n command here pending in
    let passed : Commits (IsEnded node_id k n)
        (ack_node_command node_id command_id true error nonce_digest at db) =
      ack_commits node_id command_id true error nonce_digest at (IsEnded node_id k n) db
        (λ table. search (commits_rules, written) depth 10) in
    passed.at b db' e

-- All but the nonces of the requests is as it was.
abbrev pub SameButNonces : Database → Database → Type 0
SameButNonces db d = (table : List NonceRow) × (record db { request_nonces = table } ≡ d)

repeat_written :
    (node_id command_id error : String) (done : Bool) (at : ℕ) (db : Database) (k k' : Command)
    (table : List NonceRow)
    → select (command_of command_id node_id) db.commands ≡ some k
    → is_set k.acked_at ≡ true
    → select (command_of command_id node_id) db.commands ≡ some k'
    → Commits
        (SameButNonces db)
        (record_ack node_id k' done error at (record db { request_nonces = table }))
repeat_written node_id command_id error done at db k k' table command acked found_it =
    let same : k ≡ k' = cc in
    let acked' : is_set k'.acked_at ≡ true = subst (λ x. is_set x.acked_at ≡ true) same acked in
    Commits-if (is_set k'.acked_at) _ _
      (λ t. Commits-ok true (record db { request_nonces = table }) (table, refl)) (λ f. absurd (cc))

-- An acknowledgement of a command that was acknowledged before, whatever it reports, changes nothing
-- but the nonces of the requests.
pub ack_again_changes_nothing :
    (node_id command_id error nonce_digest : String) (done : Bool) (at : ℕ) (db db' : Database)
    (k : Command) (b : Bool)
    → select (command_of command_id node_id) db.commands ≡ some k
    → is_set k.acked_at ≡ true
    → ack_node_command node_id command_id done error nonce_digest at db ≡ ok (b, db')
    → SameButNonces db db'
unfolding after_nonce
ack_again_changes_nothing node_id command_id error nonce_digest done at db db' k b command acked e =
    let written = λ (table : List NonceRow) (k' : Command).
      repeat_written node_id command_id error done at db k k' table command acked in
    let passed : Commits (SameButNonces db)
        (ack_node_command node_id command_id done error nonce_digest at db) =
      ack_commits node_id command_id done error nonce_digest at (SameButNonces db) db
        (λ table. search (commits_rules, written) depth 10) in
    passed.at b db' e
