-- ===== src/Nodes/Admission/Dns.antt =====
-- `mark_node_dns_admitted` and the lifecycle of a node.
use hysteria2_panel.Prelude.{
  ℕ, ◌≡◌, ◌-◌, String, true, some, ok, arith, ◌&&◌, ltb, select, select_holds, select-update_narrow,
  row_count, hex_text, strip,
}
use hysteria2_panel.Nodes.Row.{Node, is_stopped, is_admitted}
use hysteria2_panel.Nodes.Database.{Database, node_is, max_state_age}
use hysteria2_panel.Nodes.Admission.{
  actor_ok, dns_may_admit, admissible_node, admitted_row, set_nodes, mark_node_dns_admitted,
}

-- The node is both stopped and admitted to DNS.
pub record IsStoppedInDns (node_id actor : String) (at : ℕ) (db : Database) : Type 0 where
  pub after : Database
  pub returned : mark_node_dns_admitted node_id actor at db ≡ ok (true, after)
  pub row : Node
  pub stored : select (node_is node_id) after.nodes ≡ some row
  pub conflict : (is_stopped row.lifecycle_state && is_admitted row.data_plane_state) ≡ true

-- A stopped node that has passed its canary and whose last heartbeat, snapshot and traffic report are
-- still fresh is admitted to DNS when an administrator asks for it: the check of the admission does
-- not read the lifecycle of the node.
pub stopped_node_is_admitted :
    (node_id actor : String) (at : ℕ) (db : Database) (n : Node)
    → (hex_text 32 node_id && actor_ok actor && ltb 0 at) ≡ true
    → select (node_is node_id) db.nodes ≡ some n
    → row_count (admissible_node node_id (at - max_state_age)) db.nodes ≡ 1
    → is_stopped n.lifecycle_state ≡ true
    → dns_may_admit (at - max_state_age) n ≡ true
    → IsStoppedInDns node_id actor at db
unfolding mark_node_dns_admitted
stopped_node_is_admitted node_id actor at db n valid here one stopped ready = record {
  after =
      set_nodes (admissible_node node_id (at - max_state_age)) (admitted_row at (strip actor)) db;
  returned = ground arith;
  row = admitted_row at (strip actor) n;
  stored =
      select-update_narrow (node_is node_id) (admissible_node node_id (at - max_state_age))
        (admitted_row at (strip actor)) db.nodes n (λ y t. ground arith) here
        (ground (arith, select_holds (node_is node_id) db.nodes n here))
        (select_holds (node_is node_id) db.nodes n here);
  conflict = ground arith;
}
