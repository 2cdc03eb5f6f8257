-- ===== src/Nodes/Bootstrap/Ack.antt =====
-- `acknowledge_data_plane_bootstrap` of `class Database` in hysteria2_panel.py.
use hysteria2_panel.Prelude.{
  ℕ, ◌-◌, String, Bool, true, false, not, ◌&&◌, ◌||◌, Option, some, ok, guard, maybe, ◌>>=◌, ◌>>◌,
  select, update, delete, row_count, ◌==◌, if◌then◌else◌, is_null, at_least, str_eq, hex_text,
}
use hysteria2_panel.Nodes.Row.{
  bootstrap_issued, data_plane_installed, dns_admitted, Node, Grant, AuthDecision,
}
use hysteria2_panel.Nodes.Database.{Database, Error, Tx, or_return, node_is, max_state_age}
use hysteria2_panel.Nodes.Nonce.{consume_request_nonce}
use hysteria2_panel.Nodes.Admission.{one_row}
use hysteria2_panel.Nodes.Bootstrap.{
  may_fetch, current, was_fetched, grant_is, open_grant, nonce_row,
}

abbrev pub canary_user : String
canary_user = "__hy2panel_bootstrap_canary__"

-- The row of the node, once its data plane is installed; `passed` where the panel itself has run the
-- canary through it
unfoldable pub installed : Bool → ℕ → Node → Node
installed passed at x = record x {
  data_plane_state =
      if passed
      then dns_admitted
      else elim x.data_plane_state [ bootstrap_issued ↦ data_plane_installed | other ↦ other ];
  dns_admitted_at = if passed then some at else x.dns_admitted_at;
  dns_admitted_by = if passed then some "system:one-click" else x.dns_admitted_by;
  data_plane_installed_at = some at;
  direct_canary_passed_at =
      if passed && is_null x.direct_canary_passed_at then some at else x.direct_canary_passed_at;
}

abbrev pub fresh_node : ℕ → Node → Bool
fresh_node at n =
    at_least (at - max_state_age) n.last_heartbeat_at
    && at_least (at - max_state_age) n.last_snapshot_at
    && at_least (at - max_state_age) n.last_traffic_ack_at

unfoldable pub canary_decision : String → AuthDecision → Bool
canary_decision node_id d =
    str_eq d.node_id node_id && maybe d.user_name false (λ name. str_eq name canary_user)

abbrev pub acked_grant : String → Grant → Bool
acked_grant grant_id x = grant_is grant_id x && open_grant x

abbrev pub fetching_node : String → Node → Bool
fetching_node node_id x = node_is node_id x && may_fetch x

-- The writes: the nonce, the grant, the node, and the decisions on the canary
abbrev pub record_installed : Grant → String → Bool → ℕ → Database → Tx Bool
record_installed g nonce_digest passed at db = do
  db' ← consume_request_nonce (nonce_row g.node_id "data-plane-ack" nonce_digest at) db
  guard
      (row_count (acked_grant g.grant_id) db'.grants == 1 && one_row (fetching_node g.node_id) db')
      Error.integrity_error
  ok (
    true,
    record db' {
      grants =
          update (acked_grant g.grant_id) (λ x. record x { acknowledged_at = some at }) db'.grants;
      nodes = update (fetching_node g.node_id) (installed passed at) db'.nodes;
      auth_decisions =
          if passed
          then delete (canary_decision g.node_id) db'.auth_decisions
          else db'.auth_decisions;
    },
  )

unfoldable pub acknowledge_bootstrap :
    (canonical_ip : String → Option String)
    → String
    → String
    → String
    → String
    → ℕ
    → Bool
    → Database
    → Tx Bool
unfolding installed canary_decision
acknowledge_bootstrap canonical_ip node_id token_digest remote_ip nonce_digest at passed db =
    let fits = λ (g : Grant). current node_id token_digest at g && was_fetched g in
    if not (hex_text 32 node_id && hex_text 64 token_digest && hex_text 64 nonce_digest)
    then ok (false, db)
    else maybe (canonical_ip remote_ip) (ok (false, db)) λ ip.
      maybe (select fits db.grants) (ok (false, db)) λ g.
        maybe (select (fetching_node node_id) db.nodes) (ok (false, db)) λ n.
          if not (
            str_eq g.bound_ip ip
            && (if g.automatic_canary then passed else not passed)
            && (not passed || fresh_node at n))
          then ok (false, db)
          else or_return false db (record_installed g nonce_digest passed at db)
