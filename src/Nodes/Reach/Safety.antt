-- ===== src/Nodes/Reach/Safety.antt =====
-- What the panel may rely on in every state that it can come to.
use hysteria2_panel.Prelude.{
  ◌≡◌, String, Bool, true, not, Option, some, All-select, arith, ◌&&◌, ◌||◌, is_set, select,
  select_holds, str_eq→eq, subst,
}
use hysteria2_panel.Nodes.Row.{
  Node, is_admitted, is_archived, is_pending_verification, is_ready, is_stopping, is_starting,
  is_disconnecting, is_stop, is_start, is_uninstall,
}
use hysteria2_panel.Nodes.Database.{Database, node_is}
use hysteria2_panel.Nodes.Requests.{Reaches}
use hysteria2_panel.Nodes.Reach.{Reaches-Consistent}
use hysteria2_panel.Nodes.Invariant.{IsServing, IsAwaited, awaits}

-- Verified, with an installed data plane, a passed canary and the time of the admission; and, unless
-- archived, registered and under the control protocol
abbrev pub is_serving : Node → Bool
is_serving n =
    is_set n.verified_at
    && is_set n.data_plane_installed_at
    && is_set n.direct_canary_passed_at
    && is_set n.dns_admitted_at
    && (is_archived n.lifecycle_state
        || is_pending_verification n.status && is_ready n.policy_state)

module _ (canonical_ip : String → Option String) (key_fingerprint : String → Option String)
    (name_fingerprint : String → String) (sha256 : String → Option String)
    (token_fingerprint casefold : String → String) (db : Database)
    (reached : Reaches canonical_ip key_fingerprint name_fingerprint sha256 token_fingerprint
      casefold db) where
  -- In every state that requests reach, a node recorded as admitted to DNS is verified, has a data
  -- plane that was installed, has passed a canary and has the time of its admission; and, unless it
  -- is archived, it is registered and under the control protocol.
  pub admitted_in_service :
      (node_id : String) (n : Node)
      → select (node_is node_id) db.nodes ≡ some n
      → is_admitted n.data_plane_state ≡ true
      → is_serving n ≡ true
  admitted_in_service node_id n here =
      let c =
        Reaches-Consistent canonical_ip key_fingerprint name_fingerprint sha256 token_fingerprint
          casefold db reached in
      (All-select IsServing (node_is node_id) db.nodes n c.serving here).admitted

  -- In every state that requests reach, a node that is stopping has a stop pending, one that is
  -- starting a start, and one that is disconnecting an uninstallation: none of these states is left
  -- without the command whose acknowledgement ends it.
  pub waiting_has_command :
      (node_id : String) (n : Node)
      → select (node_is node_id) db.nodes ≡ some n
      → ((not (is_stopping n.lifecycle_state) || awaits is_stop node_id db.commands)
          && (not (is_starting n.lifecycle_state) || awaits is_start node_id db.commands)
          && (not (is_disconnecting n.lifecycle_state) || awaits is_uninstall node_id db.commands))
        ≡ true
  waiting_has_command node_id n here =
      let c =
        Reaches-Consistent canonical_ip key_fingerprint name_fingerprint sha256 token_fingerprint
          casefold db reached in
      let a = All-select (IsAwaited db.commands) (node_is node_id) db.nodes n c.awaited here in
      let id : n.node_id ≡ node_id =
        str_eq→eq n.node_id node_id (select_holds (node_is node_id) db.nodes n here) in
      subst
        (λ i.
          ((not (is_stopping n.lifecycle_state) || awaits is_stop i db.commands)
            && (not (is_starting n.lifecycle_state) || awaits is_start i db.commands)
            && (not (is_disconnecting n.lifecycle_state) || awaits is_uninstall i db.commands))
          ≡ true)
        id (ground (arith, a.stop, a.start, a.uninstall))
