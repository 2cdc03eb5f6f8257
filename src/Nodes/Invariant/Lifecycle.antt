-- ===== src/Nodes/Invariant/Lifecycle.antt =====
-- The transactions of `Nodes.Lifecycle` keep the tables consistent.
use hysteria2_panel.Prelude.{
  ℕ, ◌≡◌, refl, String, Bool, true, false, ◌&&◌, List, ◌∷◌, [], ◌++◌, ok, arith, Commits,
  commits_rules, subst, ap, ltb, ◌∙◌, some, sym, select, update, delete, row_count-delete,
  update-All, update-All-both, update-Unique, delete-Unique, update-All-keyed, str_eq→eq,
  str_eq_refl,
}
use hysteria2_panel.Nodes.Row.{
  Node, Command, Kind, stop_data_plane, start_data_plane, uninstall_node, is_stop, is_start,
  is_uninstall, is_pending_verification, is_ready, in_service, is_stopped,
}
use hysteria2_panel.Nodes.Database.{Database, node_is, unacked, fixed_command, insert_command}
use hysteria2_panel.Nodes.Lifecycle.{
  drainable, disconnectable, change_node, stopped_node, draining_row, stopping_row, starting_row,
  archived_row, disconnecting_row, deleted_row, unused_enrollment, withdrawn, dropped_command,
  begin_node_drain, request_node_stop, request_node_resume, archive_stopped_node,
  request_node_disconnect, delete_node_pairing,
}
use hysteria2_panel.Nodes.Invariant.{IsServing, IsAwaited, IsEnrolled, Sound, Consistent, awaits}
use hysteria2_panel.Nodes.Invariant.Rules.{
  IsEnrolled-update, update-Consistent, insert_command-Consistent, insert_command-eq,
  awaits-snoc_self,
}

module _ (db : Database) (c : Consistent db) (node_id : String) where
  -- The row that an UPDATE of the id changes is the one that was selected.
  selected :
      (test : Node → Bool) (n x : Node)
      → select (node_is node_id) db.nodes ≡ some n
      → select (node_is node_id) db.nodes ≡ some x
      → test n ≡ true
      → test x ≡ true
  selected test n x e f h = cc

  draining_step :
      (at : ℕ) (actor : String) (n : Node)
      → select (node_is node_id) db.nodes ≡ some n
      → drainable n ≡ true
      → Consistent (change_node node_id (draining_row at actor) db)
  draining_step at actor n e h =
      update-Consistent db node_id (node_is node_id) (draining_row at actor) (λ x. refl) (λ x t. t)
        (λ x t f s. let live : drainable x ≡ true = selected drainable n x e f h in ground arith)
        (λ x t a. ground arith) (λ x t p. ground arith) c

  archived_step :
      (at : ℕ) (actor : String)
      → Consistent
          (record db { nodes = update (stopped_node node_id) (archived_row at actor) db.nodes })
  archived_step at actor =
      update-Consistent db node_id (stopped_node node_id) (archived_row at actor) (λ x. refl)
        (λ x t. ground arith) (λ x t e s. ground arith) (λ x t a. ground arith)
        (λ x t p. ground arith) c

  -- A node that is registered and under the protocol enters a state that waits for the command that
  -- was just inserted.
  pub entered :
      (command : Command) (change : Node → Node) (db' : Database) (n : Node)
      → insert_command command db ≡ ok db'
      → unacked node_id command ≡ true
      → select (node_is node_id) db.nodes ≡ some n
      → (is_pending_verification n.status && is_ready n.policy_state) ≡ true
      → ((x : Node) → (change x).node_id ≡ x.node_id)
      → ((x : Node)
          → (is_pending_verification x.status && is_ready x.policy_state) ≡ true
          → IsServing x
          → IsServing (change x))
      → ((commands : List Command) (x : Node)
          → ((test : Kind → Bool)
              → test command.kind ≡ true
              → awaits test x.node_id commands ≡ true)
          → IsAwaited commands (change x))
      → ((x : Node)
          → is_pending_verification (change x).status ≡ true
          → is_pending_verification x.status ≡ true)
      → Consistent (change_node node_id change db')
  entered command change db' n i u e h same serve wait quiet =
      let live = λ (x : Node). is_pending_verification x.status && is_ready x.policy_state in
      subst (λ (d : Database). Consistent (change_node node_id change d))
        ((insert_command-eq command db db' i).1)
        (update-Consistent inserted node_id (node_is node_id) change same (λ x t. t)
          (λ x t f s. serve x (selected live n x e f h) s)
          (λ x t a. wait inserted.commands x (λ test k. pending x t test k)) (λ x t p. quiet x p)
          (subst Consistent (sym ((insert_command-eq command db db' i).1))
            (insert_command-Consistent command db db' i c)))
    where
      inserted : Database
      inserted = record db { commands = db.commands ++ command ∷ [] }

      pending :
          (x : Node)
          → node_is node_id x ≡ true
          → (test : Kind → Bool) → test command.kind ≡ true
          → awaits test x.node_id (db.commands ++ command ∷ []) ≡ true
      pending x t test k =
          awaits-snoc_self test x.node_id db.commands command
            (ground (arith, str_eq→eq x.node_id node_id t))

  stopping_step :
      (command_id : String) (at : ℕ) (actor : String) (verified : Bool) (db' : Database) (n : Node)
      → select (node_is node_id) db.nodes ≡ some n
      → (is_pending_verification n.status
          && is_ready n.policy_state
          && in_service n.lifecycle_state)
        ≡ true
      → insert_command (fixed_command command_id node_id stop_data_plane at) db ≡ ok db'
      → Consistent (change_node node_id (stopping_row at actor verified) db')
  stopping_step command_id at actor verified db' n e h i =
      entered (fixed_command command_id node_id stop_data_plane at) (stopping_row at actor verified)
        db' n i (ground (arith, str_eq_refl node_id)) e (ground arith) (λ x. refl)
        (λ x live s. ground arith) (λ commands x w. ground (arith, w is_stop refl)) (λ x p. p)

  starting_step :
      (command_id : String) (at : ℕ) (actor : String) (db' : Database) (n : Node)
      → select (node_is node_id) db.nodes ≡ some n
      → (is_pending_verification n.status
          && is_ready n.policy_state
          && is_stopped n.lifecycle_state)
        ≡ true
      → insert_command (fixed_command command_id node_id start_data_plane at) db ≡ ok db'
      → Consistent (change_node node_id (starting_row at actor) db')
  starting_step command_id at actor db' n e h i =
      entered (fixed_command command_id node_id start_data_plane at) (starting_row at actor) db' n i
        (ground (arith, str_eq_refl node_id)) e (ground arith) (λ x. refl)
        (λ x live s. ground arith) (λ commands x w. ground (arith, w is_start refl)) (λ x p. p)

  disconnecting_step :
      (command_id : String) (at : ℕ) (actor : String) (db' : Database) (n : Node)
      → select (node_is node_id) db.nodes ≡ some n
      → disconnectable n ≡ true
      → insert_command (fixed_command command_id node_id uninstall_node at) db ≡ ok db'
      → Consistent (change_node node_id (disconnecting_row at actor) db')
  disconnecting_step command_id at actor db' n e h i =
      entered (fixed_command command_id node_id uninstall_node at) (disconnecting_row at actor) db'
        n i (ground (arith, str_eq_refl node_id)) e (ground arith) (λ x. refl)
        (λ x live s. ground arith) (λ commands x w. ground (arith, w is_uninstall refl)) (λ x p. p)

  pub begin_node_drain-Consistent :
      (actor : String) (at : ℕ) → Commits Consistent (begin_node_drain node_id actor at db)
  unfolding begin_node_drain
  begin_node_drain-Consistent actor at = search (commits_rules, c, draining_step) depth 12

  pub request_node_stop-Consistent :
      (command_id actor : String) (at : ℕ) (verified emergency : Bool) (freshness : ℕ)
      → Commits Consistent
          (request_node_stop command_id node_id actor at verified emergency freshness db)
  unfolding request_node_stop
  request_node_stop-Consistent command_id actor at verified emergency freshness =
      search (commits_rules, stopping_step) depth 12

  pub request_node_resume-Consistent :
      (command_id actor : String) (at : ℕ)
      → Commits Consistent (request_node_resume command_id node_id actor at db)
  unfolding request_node_resume
  request_node_resume-Consistent command_id actor at =
      search (commits_rules, starting_step) depth 12

  pub archive_stopped_node-Consistent :
      (actor : String) (at : ℕ) → Commits Consistent (archive_stopped_node node_id actor at db)
  unfolding archive_stopped_node
  archive_stopped_node-Consistent actor at = search (commits_rules, archived_step) depth 12

  pub request_node_disconnect-Consistent :
      (command_id actor : String) (at freshness : ℕ)
      → Commits Consistent (request_node_disconnect command_id node_id actor at freshness db)
  unfolding request_node_disconnect
  request_node_disconnect-Consistent command_id actor at freshness =
      search (commits_rules, disconnecting_step) depth 14

  -- The commands of the other nodes stay.
  kept_awaits :
      (test : Kind → Bool) (x : Node)
      → node_is node_id x ≡ false
      → awaits test x.node_id (delete (dropped_command node_id) db.commands)
        ≡ awaits test x.node_id db.commands
  kept_awaits test x other =
      ap (λ n. ltb 0 n)
        (row_count-delete (λ (y : Command). unacked x.node_id y && test y.kind)
          (dropped_command node_id) db.commands
          (λ y k. ground (arith, str_eq→eq y.node_id x.node_id)))

  deleted_step :
      (at : ℕ) (actor : String)
      → Sound
          (update (node_is node_id) (deleted_row at actor) db.nodes)
          (delete (dropped_command node_id) db.commands)
          (update (unused_enrollment node_id) (withdrawn at) db.enrollments)
  deleted_step at actor = record {
    node_key =
        update-Unique (λ n. n.node_id) (node_is node_id) (deleted_row at actor) db.nodes (λ x. refl)
          c.node_key;
    command_key =
        delete-Unique (λ c. c.command_id) (dropped_command node_id) db.commands c.command_key;
    serving =
        update-All-keyed (λ n. n.node_id) IsServing node_id (node_is node_id) (deleted_row at actor)
          db.nodes c.node_key (λ x t. t) (λ x t e s. ground arith) c.serving;
    awaited =
        update-All-both (IsAwaited db.commands)
          (IsAwaited (delete (dropped_command node_id) db.commands)) (node_is node_id)
          (deleted_row at actor) db.nodes (λ x t a. ground arith)
          (λ x t a. record {
            stop = λ w. kept_awaits is_stop x t ∙ a.stop w;
            start = λ w. kept_awaits is_start x t ∙ a.start w;
            uninstall = λ w. kept_awaits is_uninstall x t ∙ a.uninstall w;
          })
          c.awaited;
    enrollment_key =
        update-Unique (λ e. e.node_id) (unused_enrollment node_id) (withdrawn at) db.enrollments
          (λ e. refl) c.enrollment_key;
    enrolled =
        update-All (IsEnrolled (update (node_is node_id) (deleted_row at actor) db.nodes))
          (unused_enrollment node_id) (withdrawn at) db.enrollments
          (λ e t h. record { known = h.known; unused = h.unused })
          (IsEnrolled-update db.nodes (node_is node_id) (deleted_row at actor) db.enrollments
            (λ x. refl) (λ x t p. ground arith) c.enrolled);
  }

  pub delete_node_pairing-Consistent :
      (actor : String) (at : ℕ) → Commits Consistent (delete_node_pairing node_id actor at db)
  unfolding delete_node_pairing
  delete_node_pairing-Consistent actor at = search (commits_rules, c, deleted_step) depth 12
