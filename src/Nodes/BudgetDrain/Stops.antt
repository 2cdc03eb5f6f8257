-- ===== src/Nodes/BudgetDrain/Stops.antt =====
-- `reconcile_node_budgets` keeps the tables consistent, and stops only nodes whose stop is due.
use hysteria2_panel.Prelude.{
  ℕ, ◌≡◌, refl, sym, ◌∙◌, ap, subst, String, Bool, true, false, ◌&&◌, Option, some, List, [], ◌∷◌,
  inl, inr, arith, ok, map, Bool-cases, maybe, select, select_all, Commits, Commits-ok,
  Commits-guard, Commits-bind, Commits-then, str_eq, str_eq→eq, str_eq_sym, All, All-and, Unique,
  keyed, row_count-zero, Unique-selected, select_all-Unique, select_all-All,
}
use hysteria2_panel.Nodes.Row.{Node, is_stopping, is_pending_verification, is_ready, in_service}
use hysteria2_panel.Nodes.Database.{Database, node_is}
use hysteria2_panel.Nodes.Invariant.{Consistent}
use hysteria2_panel.Nodes.Invariant.Rules.{update-Consistent}
use hysteria2_panel.Nodes.Lifecycle.{one_node}
use hysteria2_panel.Nodes.BudgetDrain.{
  Counts, budgeted, node_origin, confirmable, confirmed_row, confirm_node_budget_dns_removed, turn,
  turns, reconcile_node_budgets,
}
use hysteria2_panel.Nodes.BudgetDrain.Due.{stop_is_due}
use hysteria2_panel.Nodes.BudgetDrain.Turns.{Turned, turn-Turned}
use hysteria2_panel.Traffic.Budgets.{
  BudgetChange, BudgetResult, set_origin_budget, write_budget, origin_budget, list_origin_budgets,
}
use hysteria2_panel.Traffic.Budgets.ByHand.{set-writes}
use hysteria2_panel.Traffic.Budgets.Listing.{list_origin_budgets-ok}

some-injective : (x y : Node) → ◌≡◌ {A = Option Node} (some x) (some y) → x ≡ y
some-injective x y e = cc

stop_is_due-same :
    (now : ℕ) (n : Node) (b : BudgetResult) (d e : Database)
    → d.snapshots ≡ e.snapshots
    → d.online_counts ≡ e.online_counts
    → stop_is_due now n b d ≡ stop_is_due now n b e
stop_is_due-same now n b d e s o =
    ap (λ x. stop_is_due now n b (record d { snapshots = x })) s
    ∙ ap (λ x. stop_is_due now n b (record d { snapshots = e.snapshots; online_counts = x })) o

-- What the node has used of its budget
abbrev pub node_budget : ℕ → Database → Node → BudgetResult
node_budget now db n = origin_budget now db db.daily (node_origin n)

module _ (fresh_id : ℕ → String) (now : ℕ) (db : Database) where
  abbrev is_live : Node → Bool
  is_live n =
      is_pending_verification n.status && is_ready n.policy_state && in_service n.lifecycle_state

  -- A node that stops, and did not before, was due.
  abbrev OnlyDue : Database → Type 0
  OnlyDue d =
      (k : String) (n x : Node)
      → select (node_is k) db.nodes ≡ some n
      → is_stopping n.lifecycle_state ≡ false
      → select (node_is k) d.nodes ≡ some x
      → is_stopping x.lifecycle_state ≡ true
      → stop_is_due now n (node_budget now db n) db ≡ true

  -- Between two turns, with the nodes whose turn is still to come
  record Progress (rest : List Node) (d : Database) : Type 0 where
    consistent : Consistent d
    here : All (λ n. select (node_is n.node_id) d.nodes ≡ some n) rest
    snapshots : d.snapshots ≡ db.snapshots
    online_counts : d.online_counts ≡ db.online_counts
    due : OnlyDue d

  Progress-turn :
      (n : Node) (rest : List Node) (d d' : Database)
      → Unique (λ x. x.node_id) (n ∷ rest)
      → select (node_is n.node_id) db.nodes ≡ some n
      → Progress (n ∷ rest) d
      → Turned now n (node_budget now db n) d d'
      → Progress rest d'
  Progress-turn n rest d d' (fresh, u) row p t = record {
    consistent = t.consistent;
    here =
        All-and (λ x f e. t.others x.node_id (str_eq_sym x.node_id n.node_id f) ∙ e) rest
          (row_count-zero (λ x. x.node_id) (keyed (λ x. x.node_id) n.node_id) rest fresh) p.here.1;
    snapshots = t.snapshots ∙ p.snapshots;
    online_counts = t.online_counts ∙ p.online_counts;
    due = λ k y x e m g s. elim (Bool-cases (str_eq n.node_id k)) [
      | inr other ↦ p.due k y x e m (sym (t.others k other) ∙ g) s
      | inl same ↦ own k y x e g s (str_eq→eq n.node_id k same)
    ];
  }
    where
      own :
          (k : String) (y x : Node)
          → select (node_is k) db.nodes ≡ some y
          → select (node_is k) d'.nodes ≡ some x
          → is_stopping x.lifecycle_state ≡ true
          → n.node_id ≡ k
          → stop_is_due now y (node_budget now db y) db ≡ true
      own k y x e g s q =
          subst (λ z. stop_is_due now z (node_budget now db z) db ≡ true)
            (some-injective n y (sym row ∙ ap (λ i. select (node_is i) db.nodes) q ∙ e))
            (sym (stop_is_due-same now n (node_budget now db n) d db p.snapshots p.online_counts)
              ∙ t.due x (ap (λ i. select (node_is i) d'.nodes) q ∙ g) s)

  turns-Progress :
      (nodes : List Node) (counts : Counts) (d : Database)
      → Unique (λ x. x.node_id) nodes
      → All (λ n. (is_live n ≡ true) × (select (node_is n.node_id) db.nodes ≡ some n)) nodes
      → Progress nodes d
      → Commits (Progress []) (
          turns fresh_id now nodes
            (map (origin_budget now db db.daily) (map node_origin nodes))
            counts
            d)
  unfolding turns
  turns-Progress [] counts d u all p = Commits-ok counts d p
  turns-Progress (n ∷ nodes) counts d u ((live, row), all) p =
      Commits-then (turn fresh_id now n (node_budget now db n) counts d) _
        (turn-Turned now n (node_budget now db n) d p.consistent p.here.0 live fresh_id counts)
        (λ counts' d' e t.
          turns-Progress nodes counts' d' u.1 all (Progress-turn n nodes d d' u row p t))

  reconcile-Progress :
      (local_origin_id : String)
      → Consistent db
      → Commits (Progress []) (reconcile_node_budgets fresh_id now local_origin_id db)
  unfolding reconcile_node_budgets
  reconcile-Progress local_origin_id c =
      let nodes = select_all (budgeted local_origin_id db) db.nodes in
      let rows = Unique-selected (λ (x : Node). x.node_id) db.nodes c.node_key in
      Commits-bind (list_origin_budgets now (map node_origin nodes) db) _ (λ budgets e.
        subst (λ x. Commits (Progress []) (turns fresh_id now nodes x (0, 0) db))
          (list_origin_budgets-ok now db (map node_origin nodes) budgets e)
          (turns-Progress nodes (0, 0) db
            (select_all-Unique (λ x. x.node_id) (budgeted local_origin_id db) db.nodes c.node_key)
            (select_all-All (budgeted local_origin_id db) db.nodes (λ x t r. (ground arith, r))
              rows)
            (record {
              consistent = c;
              here = select_all-All (budgeted local_origin_id db) db.nodes (λ x t r. r) rows;
              snapshots = refl;
              online_counts = refl;
              due = λ k n x e m g s. absurd (
                  ground (
                    arith,
                    ap (λ y. maybe y false (λ z. is_stopping z.lifecycle_state)) (sym e ∙ g),
                  ));
            })))

  pub reconcile_node_budgets-Consistent :
      (local_origin_id : String)
      → Consistent db
      → Commits Consistent (reconcile_node_budgets fresh_id now local_origin_id db)
  reconcile_node_budgets-Consistent local_origin_id c = record {
    at = λ counts d e. ((reconcile-Progress local_origin_id c).at counts d e).consistent;
  }

  -- Where `reconcile_node_budgets` succeeds on consistent tables, a node that it stops was due: 95
  -- percent of its budget are used, it was set to drain for that, an administrator has confirmed at
  -- least a day ago that it is out of DNS, its row says that it has been idle for 15 minutes or more
  -- by a check at most a minute ago, and it is heard and has no device online now.
  pub idle_stop_is_due :
      (local_origin_id : String) (counts : Counts) (d : Database)
      → Consistent db
      → reconcile_node_budgets fresh_id now local_origin_id db ≡ ok (counts, d)
      → (k : String) (n x : Node) → select (node_is k) db.nodes ≡ some n
      → is_stopping n.lifecycle_state ≡ false
      → select (node_is k) d.nodes ≡ some x
      → is_stopping x.lifecycle_state ≡ true
      → stop_is_due now n (node_budget now db n) db ≡ true
  idle_stop_is_due local_origin_id counts d c e =
      ((reconcile-Progress local_origin_id c).at counts d e).due

pub confirm_node_budget_dns_removed-Consistent :
    (node_id : String) (now : ℕ) (db : Database)
    → Consistent db
    → Commits Consistent (confirm_node_budget_dns_removed node_id now db)
unfolding confirm_node_budget_dns_removed
confirm_node_budget_dns_removed-Consistent node_id now db c =
    Commits-guard (one_node (confirmable node_id db) db) _ _ (λ _. Commits-ok _ _ (
      update-Consistent db node_id (confirmable node_id db) (confirmed_row now) (λ x. refl)
        (λ x t. ground arith) (λ x t e s. record { ready = s.ready; admitted = s.admitted })
        (λ x t a. record { stop = a.stop; start = a.start; uninstall = a.uninstall }) (λ x t p. p)
        c))

pub set_origin_budget-Consistent :
    (change : BudgetChange) (db : Database)
    → Consistent db
    → Commits Consistent (set_origin_budget change db)
unfolding write_budget
set_origin_budget-Consistent change db c = record {
  at = λ results d e. subst Consistent (set-writes change db d results e).1 c;
}
