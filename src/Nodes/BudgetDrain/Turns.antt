-- ===== src/Nodes/BudgetDrain/Turns.antt =====
-- The loop of `reconcile_node_budgets`: a turn changes the row of its own node only, keeps the tables
-- consistent, and stops the node only if that is due.
use hysteria2_panel.Prelude.{
  ℕ, ◌≡◌, refl, sym, ◌∙◌, ap, String, true, false, not, ◌&&◌, ◌||◌, Option, some, [], ◌∷◌, ◌++◌,
  arith, ok, maybe, select, Commits, Commits-ok, Commits-if, Commits-bind, str_eq, str_eq_refl,
  select-update, select-update_other, is_null,
}
use hysteria2_panel.Nodes.Row.{
  Node, stop_data_plane_if_idle, is_stop, is_stopping, is_draining, is_active, in_service,
  is_pending_verification, is_ready,
}
use hysteria2_panel.Nodes.Database.{Database, node_is, fixed_command, insert_command, has_pending}
use hysteria2_panel.Nodes.Lifecycle.{change_node, draining_row}
use hysteria2_panel.Nodes.Invariant.{IsServing, IsAwaited, Consistent}
use hysteria2_panel.Nodes.Invariant.Rules.{update-Consistent, insert_command-eq}
use hysteria2_panel.Nodes.Invariant.Lifecycle.{entered}
use hysteria2_panel.Nodes.BudgetDrain.{
  by_budget, budget_actor, unmarked, is_over, cancelled_row, idle_row, idle_stop_row, is_idle,
  still_idle, may_stop, Counts, turn,
}
use hysteria2_panel.Nodes.BudgetDrain.Due.{stop_is_due, may_stop-waited}
use hysteria2_panel.Traffic.Budgets.{BudgetResult}

module _ (now : ℕ) (n : Node) (b : BudgetResult) where
  -- The tables after the turn of the node
  pub record Turned (d d' : Database) : Type 0 where
    pub consistent : Consistent d'
    pub others :
        (k : String)
        → str_eq n.node_id k ≡ false
        → select (node_is k) d'.nodes ≡ select (node_is k) d.nodes
    pub snapshots : d'.snapshots ≡ d.snapshots
    pub online_counts : d'.online_counts ≡ d.online_counts
    pub due :
        (x : Node)
        → select (node_is n.node_id) d'.nodes ≡ some x
        → is_stopping x.lifecycle_state ≡ true
        → stop_is_due now n b d ≡ true

  module _ (d : Database) (c : Consistent d) (here : select (node_is n.node_id) d.nodes ≡ some n)
      (live : (is_pending_verification n.status
          && is_ready n.policy_state
          && in_service n.lifecycle_state)
        ≡ true) where
    Turned-kept : Turned d d
    Turned-kept = record {
      consistent = c;
      others = λ k f. refl;
      snapshots = refl;
      online_counts = refl;
      due = λ x e s. absurd (
          ground
            (arith, ap (λ y. maybe y false (λ z. is_stopping z.lifecycle_state)) (sym e ∙ here)));
    }

    alive :
        (x : Node)
        → select (node_is n.node_id) d.nodes ≡ some x
        → (is_pending_verification x.status && is_ready x.policy_state) ≡ true
    alive x e = ground (
      arith,
      ap (λ y. maybe y false (λ z. is_pending_verification z.status && is_ready z.policy_state))
          (sym e ∙ here),
    )

    -- The row of the node is changed, and stays in service.
    Turned-changed :
        (change : Node → Node)
        → ((x : Node) → (change x).node_id ≡ x.node_id)
        → ((x : Node) → (change x).status ≡ x.status)
        → ((x : Node)
            → (is_pending_verification x.status && is_ready x.policy_state) ≡ true
            → IsServing x
            → IsServing (change x))
        → ((x : Node) → IsAwaited d.commands x → IsAwaited d.commands (change x))
        → in_service (change n).lifecycle_state ≡ true
        → Turned d (change_node n.node_id change d)
    Turned-changed change same status serve await serves = record {
      consistent =
          update-Consistent d n.node_id (node_is n.node_id) change same (λ x t. t)
            (λ x t e s. serve x (alive x e) s) (λ x t a. await x a)
            (λ x t p. ground (arith, ap is_pending_verification (status x))) c;
      others = λ k f. select-update_other (λ x. x.node_id) n.node_id k change d.nodes same f;
      snapshots = refl;
      online_counts = refl;
      due = λ x e s.
          let row =
            select-update (node_is n.node_id) change d.nodes n here
              (ap (λ i. str_eq i n.node_id) (same n) ∙ str_eq_refl n.node_id) in
          absurd (
            ground (
              arith,
              serves,
              ap (λ y. maybe y false (λ z. is_stopping z.lifecycle_state)) (sym e ∙ row),
            ));
    }

    Turned-cancelled : Turned d (change_node n.node_id (cancelled_row now) d)
    Turned-cancelled =
        Turned-changed (cancelled_row now) (λ x. refl) (λ x. refl) (λ x l s. ground arith)
          (λ x a. ground arith) refl

    Turned-draining :
        Turned d (change_node n.node_id (λ x. draining_row now budget_actor (unmarked x)) d)
    Turned-draining =
        Turned-changed (λ x. draining_row now budget_actor (unmarked x)) (λ x. refl) (λ x. refl)
          (λ x l s. ground arith) (λ x a. ground arith) refl

    Turned-checked : (since : Option ℕ) → Turned d (change_node n.node_id (idle_row since now) d)
    Turned-checked since =
        Turned-changed (idle_row since now) (λ x. refl) (λ x. refl)
          (λ x l s. record { ready = s.ready; admitted = s.admitted })
          (λ x a. record { stop = a.stop; start = a.start; uninstall = a.uninstall }) (ground arith)

    -- A node that stops has its stop command pending.
    Turned-stopped :
        (since : Option ℕ) (command_id : String) (d' : Database)
        → stop_is_due now n b d ≡ true
        → insert_command
            (fixed_command command_id n.node_id stop_data_plane_if_idle now)
            (change_node n.node_id (idle_row since now) d)
          ≡ ok d'
        → Turned d (change_node n.node_id (idle_stop_row now) d')
    Turned-stopped since command_id d' due i = record {
      consistent =
          entered checked (Turned-checked since).consistent n.node_id
            (fixed_command command_id n.node_id stop_data_plane_if_idle now) (idle_stop_row now) d'
            (idle_row since now n) i (ground (arith, str_eq_refl n.node_id)) row (ground arith)
            (λ x. refl) (λ x l s. ground arith) (λ commands x w. ground (arith, w is_stop refl))
            (λ x p. p);
      others = λ k f.
          select-update_other (λ x. x.node_id) n.node_id k (idle_stop_row now) d'.nodes (λ x. refl)
            f
          ∙ ap (λ x. select (node_is k) x.nodes) (sym inserted)
          ∙ select-update_other (λ x. x.node_id) n.node_id k (idle_row since now) d.nodes
              (λ x. refl) f;
      snapshots = ap (λ x. x.snapshots) (sym inserted);
      online_counts = ap (λ x. x.online_counts) (sym inserted);
      due = λ x e s. due;
    }
      where
        checked : Database
        checked = change_node n.node_id (idle_row since now) d

        row : select (node_is n.node_id) checked.nodes ≡ some (idle_row since now n)
        row =
            select-update (node_is n.node_id) (idle_row since now) d.nodes n here
              (str_eq_refl n.node_id)

        inserted :
            record checked {
              commands =
                  checked.commands
                  ++ fixed_command command_id n.node_id stop_data_plane_if_idle now ∷ [];
            }
            ≡ d'
        inserted =
            (insert_command-eq (fixed_command command_id n.node_id stop_data_plane_if_idle now)
              checked d' i).1

    pub turn-Turned :
        (fresh_id : ℕ → String) (counts : Counts)
        → Commits (Turned d) (turn fresh_id now n b counts d)
    unfolding turn
    turn-Turned fresh_id counts =
        Commits-if (not (is_over b)) _ _
          (λ _.
            Commits-if (by_budget n && is_draining n.lifecycle_state) _ _
              (λ _. Commits-ok _ _ Turned-cancelled) (λ _. Commits-ok _ _ Turned-kept))
          (λ over.
            Commits-if (is_active n.lifecycle_state) _ _ (λ _. Commits-ok _ _ Turned-draining)
              (λ rests.
                Commits-if (not (by_budget n) || is_null n.budget_dns_confirmed_at) _ _
                  (λ _. Commits-ok _ _ Turned-kept)
                  (λ confirmed.
                    Commits-if
                      (not (may_stop now since n)
                        || has_pending n.node_id (change_node n.node_id (idle_row since now) d))
                      _ _ (λ _. Commits-ok _ _ (Turned-checked since))
                      (λ stops. Commits-bind _ _ (λ d' i. Commits-ok _ _ (
                        Turned-stopped since (fresh_id (counts.1)) d'
                          (is_due over rests confirmed (ground arith)) i))))))
      where
        since : Option ℕ
        since = still_idle now (is_idle now n d) n

        is_due :
            not (is_over b) ≡ false
            → is_active n.lifecycle_state ≡ false
            → (not (by_budget n) || is_null n.budget_dns_confirmed_at) ≡ false
            → may_stop now since n ≡ true
            → stop_is_due now n b d ≡ true
        is_due over rests confirmed stops =
            ground (arith, may_stop-waited now (is_idle now n d) n stops)
