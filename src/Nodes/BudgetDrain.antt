-- ===== src/Nodes/BudgetDrain.antt =====
-- Nodes that have used up their budget: `confirm_node_budget_dns_removed` and
-- `reconcile_node_budgets` of `class Database` in hysteria2_panel.py, less the audit log. The ids of
-- new commands are numbered.
pub mod Turns
pub mod Due
pub mod Stops
use hysteria2_panel.Prelude.{
  ℕ, suc, ◌-◌, ◌*◌, String, Bool, true, false, not, ◌&&◌, ◌||◌, Option, none, some, List, [], ◌∷◌,
  map, ok, guard, maybe, ◌>>=◌, ◌>>◌, select, select_all, row_count, sum_where, ◌==◌, leb, ltb,
  if◌then◌else◌, is_null, str_eq, append, update,
}
use hysteria2_panel.Nodes.Row.{
  active, stopping, stop_data_plane_if_idle, Node, Snapshot, is_pending_verification, is_ready,
  is_active, is_draining, is_admitted, is_canary_passed, in_service,
}
use hysteria2_panel.Nodes.UsageRows.{OriginKind, remote, Origin}
use hysteria2_panel.Nodes.Database.{
  Database, Error, Tx, node_is, has_pending, fixed_command, insert_command, max_state_age,
  heartbeat_freshness,
}
use hysteria2_panel.Nodes.Lifecycle.{
  change_node, one_node, snapshot_is, count_is, draining_row, agent_at_least,
}
use hysteria2_panel.Traffic.Budgets.{BudgetResult, list_origin_budgets}

abbrev pub budget_actor : String
budget_actor = "system:budget95"

abbrev pub by_budget : Node → Bool
by_budget n = maybe n.lifecycle_changed_by false (λ actor. str_eq actor budget_actor)

abbrev pub is_remote : OriginKind → Bool
is_remote remote = true
is_remote _ = false

abbrev pub node_origin : Node → String
node_origin n = append "node:" n.node_id

abbrev pub remote_origin : Node → Origin → Bool
remote_origin n o =
    str_eq o.origin_id (node_origin n)
    && maybe o.node_id false (λ id. str_eq id n.node_id)
    && is_remote o.kind

-- The three columns of the budget, which a change of the lifecycle clears
abbrev pub unmarked : Node → Node
unmarked x = record x {
  budget_dns_confirmed_at = none;
  budget_idle_since = none;
  budget_checked_at = none;
}

abbrev pub confirmed_row : ℕ → Node → Node
confirmed_row now x = record (unmarked x) { budget_dns_confirmed_at = some now }

abbrev pub confirmable : String → Database → Node → Bool
confirmable node_id db x =
    node_is node_id x
    && is_pending_verification x.status
    && is_draining x.lifecycle_state
    && by_budget x
    && is_null x.budget_dns_confirmed_at
    && ltb 0 (row_count (remote_origin x) db.origins)

unfoldable pub confirm_node_budget_dns_removed : String → ℕ → Database → Tx Bool
unfolding append
confirm_node_budget_dns_removed node_id now db = do
  guard (one_node (confirmable node_id db) db) Error.not_eligible
  ok (true, record db { nodes = update (confirmable node_id db) (confirmed_row now) db.nodes })

-- A node with a remote budget that serves connections
abbrev pub budgeted : String → Database → Node → Bool
budgeted local_origin_id db n =
    ltb 0
      (row_count (λ o. remote_origin n o && not (str_eq o.origin_id local_origin_id)) db.origins)
    && is_pending_verification n.status
    && is_ready n.policy_state
    && in_service n.lifecycle_state
    && (is_admitted n.data_plane_state || is_canary_passed n.data_plane_state)

-- 95 percent of a budget are used.
abbrev pub is_over : BudgetResult → Bool
is_over b = ltb 0 b.limit_bytes && leb (b.limit_bytes * 95) (b.used_bytes * 100)

abbrev pub cancelled_row : ℕ → Node → Node
cancelled_row now x = record (unmarked x) {
  lifecycle_state = active;
  lifecycle_changed_at = some now;
  lifecycle_changed_by = none;
}

abbrev pub idle_row : Option ℕ → ℕ → Node → Node
idle_row since now x = record x { budget_idle_since = since; budget_checked_at = some now }

abbrev pub idle_stop_row : ℕ → Node → Node
idle_stop_row now x = record x { lifecycle_state = stopping; lifecycle_changed_at = some now }

-- `now - age <= at <= now`
abbrev pub is_within : ℕ → ℕ → ℕ → Bool
is_within now age at = leb (now - age) at && leb at now

abbrev pub is_fresh_state : ℕ → Snapshot → Bool
is_fresh_state now s =
    is_within now max_state_age s.accepted_at
    && is_within now max_state_age s.observed_at
    && is_within now max_state_age s.traffic_acked_at

-- Neither `None` nor 0, and fresh
abbrev pub has_heartbeat : ℕ → Node → Bool
has_heartbeat now n =
    maybe n.last_heartbeat_at false (λ at. not (at == 0) && is_within now heartbeat_freshness at)

-- No device is online, by a fresh snapshot of a node that is heard.
abbrev pub is_idle : ℕ → Node → Database → Bool
is_idle now n db =
    maybe (select (snapshot_is n.node_id) db.snapshots) false (is_fresh_state now)
    && sum_where (count_is n.node_id) (λ c. c.count) db.online_counts == 0
    && has_heartbeat now n

-- The last check was at most a minute ago.
abbrev pub checked_lately : ℕ → Option ℕ → Bool
checked_lately now checked = maybe checked false (λ at. leb at now && leb (now - at) 60)

abbrev pub still_idle : ℕ → Bool → Node → Option ℕ
still_idle now idle n =
    if not idle
    then none
    else if is_null n.budget_idle_since || not (checked_lately now n.budget_checked_at)
    then some now
    else n.budget_idle_since

-- At least so many seconds have passed since
abbrev pub has_waited : ℕ → ℕ → Option ℕ → Bool
has_waited now seconds since = maybe since false (λ at. leb seconds (now - at))

abbrev pub may_stop : ℕ → Option ℕ → Node → Bool
may_stop now since n =
    has_waited now 900 since
    && has_waited now 86400 n.budget_dns_confirmed_at
    && agent_at_least (0, 39, 19) n.agent_version

-- How many nodes began to drain, and how many to stop
abbrev pub Counts : Type 0
Counts = ℕ × ℕ

module _ (fresh_id : ℕ → String) (now : ℕ) where
  abbrev pub stop_idle : Node → Counts → Database → Tx Counts
  stop_idle n counts db = do
    db' ←
        insert_command (fixed_command (fresh_id (counts.1)) n.node_id stop_data_plane_if_idle now)
          db
    ok ((counts.0, suc (counts.1)), change_node n.node_id (idle_stop_row now) db')

  -- A node whose removal from DNS was confirmed
  abbrev pub check_idle : Option ℕ → Node → Counts → Database → Tx Counts
  check_idle since n counts db =
      let checked = change_node n.node_id (idle_row since now) db in
      if not (may_stop now since n) || has_pending n.node_id checked
      then ok (counts, checked)
      else stop_idle n counts checked

  unfoldable pub turn : Node → BudgetResult → Counts → Database → Tx Counts
  turn n b counts db =
      if not (is_over b)
      then (if by_budget n && is_draining n.lifecycle_state
          then ok (counts, change_node n.node_id (cancelled_row now) db)
          else ok (counts, db))
      else if is_active n.lifecycle_state
      then ok (
        (suc (counts.0), counts.1),
        change_node n.node_id (λ x. draining_row now budget_actor (unmarked x)) db,
      )
      else if not (by_budget n) || is_null n.budget_dns_confirmed_at
      then ok (counts, db)
      else check_idle (still_idle now (is_idle now n db) n) n counts db

  -- The loop over the nodes and their budgets, both as they were read before it
  unfoldable pub turns : List Node → List BudgetResult → Counts → Database → Tx Counts
  unfolding turn
  turns [] budgets counts db = ok (counts, db)
  turns (n ∷ nodes) [] counts db = ok (counts, db)
  turns (n ∷ nodes) (b ∷ budgets) counts db = do
    next ← turn n b counts db
    turns nodes budgets (next.0) (next.1)

  unfoldable pub reconcile_node_budgets : String → Database → Tx Counts
  unfolding turns list_origin_budgets append
  reconcile_node_budgets local_origin_id db =
      let nodes = select_all (budgeted local_origin_id db) db.nodes in
      do budgets ← list_origin_budgets now (map node_origin nodes) db; turns nodes budgets (0, 0) db
