-- ===== src/Nodes/Invariant/Commands/Acks.antt =====
-- `ack_node_command` keeps the tables consistent.
use hysteria2_panel.Prelude.{
  ℕ, ◌≡◌, ◌∙◌, refl, ap, String, Bool, true, false, ◌&&◌, List, none, some, arith, Commits,
  Commits-bind, found, ◌>>=◌, ◌>>◌, guard, commits_rules, select, update, delete, row_count-delete,
  row_count-update-All, update-All, update-All-both, update-Unique, delete-Unique, All, All-map,
  All-select, Unique-one, keyed, ltb, if_cases, str_eq, str_eq→eq,
}
use hysteria2_panel.Nodes.Row.{
  Node, Command, Kind, is_stop, is_start, is_uninstall, is_pending_verification, is_stopping,
  is_starting, is_disconnecting,
}
use hysteria2_panel.Nodes.Database.{Database, Error, node_is, unacked}
use hysteria2_panel.Nodes.Nonce.{consume_request_nonce}
use hysteria2_panel.Nodes.Commands.{
  ack_nonce, may_ack, failed_row, record_ack, command_of, acknowledged, forget_node, forgotten,
  long_acked, complete_command, ack_node_command,
}
use hysteria2_panel.Nodes.Invariant.{IsServing, IsAwaited, Consistent, awaits}
use hysteria2_panel.Nodes.Invariant.Rules.{IsEnrolled-update, consume_request-Consistent}
use hysteria2_panel.Nodes.Invariant.Commands.{commands-Consistent}

-- What is cleared for an uninstalled node is not in the tables of nodes and commands.
forget_node-Consistent :
    (kind : Kind) (node_id : String) (at : ℕ) (db : Database)
    → Consistent db
    → Consistent (forget_node kind node_id at db)
unfolding forget_node
forget_node-Consistent kind node_id at db c =
    if_cases Consistent (is_uninstall kind) (forgotten node_id at db) db (λ _. c) (λ _. c)

module _ (kind : Kind) (at : ℕ) (x : Node) where
  acknowledged-node_id : (acknowledged kind at x).node_id ≡ x.node_id
  unfolding acknowledged
  acknowledged-node_id = ground arith

  -- A node that still waits after an acknowledgement waited before, and for another kind.
  acknowledged-stopping :
      is_stopping (acknowledged kind at x).lifecycle_state ≡ true
      → (is_stopping x.lifecycle_state ≡ true) × (is_stop kind ≡ false)
  unfolding acknowledged
  acknowledged-stopping w = ground arith

  acknowledged-starting :
      is_starting (acknowledged kind at x).lifecycle_state ≡ true
      → (is_starting x.lifecycle_state ≡ true) × (is_start kind ≡ false)
  unfolding acknowledged
  acknowledged-starting w = ground arith

  acknowledged-disconnecting :
      is_disconnecting (acknowledged kind at x).lifecycle_state ≡ true
      → (is_disconnecting x.lifecycle_state ≡ true) × (is_uninstall kind ≡ false)
  unfolding acknowledged
  acknowledged-disconnecting w = ground arith

  acknowledged-registered :
      is_pending_verification (acknowledged kind at x).status ≡ true
      → is_pending_verification x.status ≡ true
  unfolding acknowledged
  acknowledged-registered p = ground arith

  acknowledged-IsServing : IsServing x → IsServing (acknowledged kind at x)
  unfolding acknowledged
  acknowledged-IsServing s = ground arith

module _ (node_id : String) (db : Database) (at : ℕ) (k : Command) where
  acked_commands : List Command
  acked_commands =
      update (command_of k.command_id node_id)
        (λ x. record x { acked_at = some at; last_error = none }) db.commands

  -- The pending commands after the acknowledgement are the same but for the one acknowledged.
  completed_awaits :
      (t : Kind → Bool) (x : String)
      → All (λ y. command_of k.command_id node_id y ≡ true → y ≡ k) db.commands
      → (str_eq x node_id && t k.kind) ≡ false
      → awaits t x (delete (long_acked at) acked_commands) ≡ awaits t x db.commands
  unfolding acked_commands
  completed_awaits t x one apart =
      ap (λ n. ltb 0 n)
        (row_count-delete (λ (y : Command). unacked x y && t y.kind) (long_acked at) acked_commands
            (λ y h. ground arith)
          ∙ row_count-update-All (λ (y : Command). unacked x y && t y.kind)
              (command_of k.command_id node_id)
              (λ x. record x { acked_at = some at; last_error = none }) db.commands
              (All-map
                (λ y e h.
                  let kind : t y.kind ≡ t k.kind = ap (λ z. t z.kind) (e h) in
                  ground (arith, str_eq→eq y.node_id x, str_eq→eq y.node_id node_id))
                db.commands one))

  acknowledged_awaits :
      (x : Node)
      → All (λ y. command_of k.command_id node_id y ≡ true → y ≡ k) db.commands
      → IsAwaited db.commands x
      → IsAwaited (delete (long_acked at) acked_commands) (acknowledged k.kind at x)
  acknowledged_awaits x one a = record {
    stop = λ w.
        let (still, other) = acknowledged-stopping k.kind at x w in
        renamed is_stop
        ∙ completed_awaits is_stop x.node_id one (ground (arith, other))
        ∙ a.stop still;
    start = λ w.
        let (still, other) = acknowledged-starting k.kind at x w in
        renamed is_start
        ∙ completed_awaits is_start x.node_id one (ground (arith, other))
        ∙ a.start still;
    uninstall = λ w.
        let (still, other) = acknowledged-disconnecting k.kind at x w in
        renamed is_uninstall
        ∙ completed_awaits is_uninstall x.node_id one (ground (arith, other))
        ∙ a.uninstall still;
  }
    where
      renamed :
          (t : Kind → Bool)
          → awaits t (acknowledged k.kind at x).node_id (delete (long_acked at) acked_commands)
            ≡ awaits t x.node_id (delete (long_acked at) acked_commands)
      renamed t =
          ap (λ i. awaits t i (delete (long_acked at) acked_commands))
            (acknowledged-node_id k.kind at x)

  completed-Consistent :
      All (λ y. command_of k.command_id node_id y ≡ true → y ≡ k) db.commands
      → Consistent db
      → Consistent (complete_command node_id k at db)
  unfolding complete_command acked_commands
  completed-Consistent one c = forget_node-Consistent k.kind node_id at _ (record {
    node_key =
        update-Unique (λ n. n.node_id) (node_is node_id) (acknowledged k.kind at) db.nodes
          (acknowledged-node_id k.kind at) c.node_key;
    command_key =
        delete-Unique (λ y. y.command_id) (long_acked at) acked_commands
          (update-Unique (λ y. y.command_id) _ _ db.commands (λ y. refl) c.command_key);
    serving =
        update-All IsServing (node_is node_id) (acknowledged k.kind at) db.nodes
          (λ x t s. acknowledged-IsServing k.kind at x s) c.serving;
    awaited =
        update-All-both (IsAwaited db.commands) (IsAwaited (delete (long_acked at) acked_commands))
          (node_is node_id) (acknowledged k.kind at) db.nodes (λ x t a. acknowledged_awaits x one a)
          (λ x t a. record {
            stop = λ w. completed_awaits is_stop x.node_id one (ground arith) ∙ a.stop w;
            start = λ w. completed_awaits is_start x.node_id one (ground arith) ∙ a.start w;
            uninstall =
                λ w. completed_awaits is_uninstall x.node_id one (ground arith) ∙ a.uninstall w;
          })
          c.awaited;
    enrollment_key = c.enrollment_key;
    enrolled =
        IsEnrolled-update db.nodes (node_is node_id) (acknowledged k.kind at) db.enrollments
          (acknowledged-node_id k.kind at) (λ x t p. acknowledged-registered k.kind at x p)
          c.enrolled;
  })

failed_step :
    (db : Database) (node_id : String) (k : Command) (error : String)
    → Consistent db
    → Consistent (record db {
      commands = update (command_of k.command_id node_id) (failed_row error) db.commands;
    })
failed_step db node_id k error c =
    commands-Consistent db (command_of k.command_id node_id) (failed_row error) (λ y. refl)
      (All-map (λ y a e k t quiet. refl) db.commands
        (Unique-one (λ y. y.command_id) db.commands c.command_key))
      c

selected_command :
    (db : Database) (node_id command_id : String) (k : Command)
    → Consistent db
    → select (command_of command_id node_id) db.commands ≡ some k
    → All (λ y. command_of k.command_id node_id y ≡ true → y ≡ k) db.commands
selected_command db node_id command_id k c e =
    All-map (λ y h t. h (ground arith)) db.commands
      (All-select
        (λ r. All (λ y. keyed (λ z. z.command_id) r.command_id y ≡ true → y ≡ r) db.commands)
        (command_of command_id node_id) db.commands k
        (Unique-one (λ z. z.command_id) db.commands c.command_key) e)

record_ack-Consistent :
    (db : Database) (node_id command_id : String) (k : Command) (done : Bool) (error : String)
    (at : ℕ)
    → Consistent db
    → select (command_of command_id node_id) db.commands ≡ some k
    → Commits Consistent (record_ack node_id k done error at db)
record_ack-Consistent db node_id command_id k done error at c e =
    let one = selected_command db node_id command_id k c e in
    let completed = completed-Consistent node_id db at k one c in
    let failed = failed_step db node_id k error c in
    search (commits_rules, c, completed, failed) depth 6

pub ack_node_command-Consistent :
    (node_id command_id : String) (done : Bool) (error nonce_digest : String) (at : ℕ)
    (db : Database)
    → Consistent db
    → Commits Consistent (ack_node_command node_id command_id done error nonce_digest at db)
unfolding ack_node_command
ack_node_command-Consistent node_id command_id done error nonce_digest at db c =
    Commits-bind (consume_request_nonce (ack_nonce node_id nonce_digest at) db)
      (λ d. found (select (command_of command_id node_id) d.commands) Error.integrity_error >>= λ k.
        found (select (node_is node_id) d.nodes) Error.integrity_error >>= λ n.
        guard (may_ack k done n) Error.integrity_error >> record_ack node_id k done error at d)
      (λ d i.
        let c' = consume_request-Consistent (ack_nonce node_id nonce_digest at) db d i c in
        search (commits_rules, c', record_ack-Consistent) depth 8)
