-- ===== src/Nodes/Reach.antt =====
-- What holds of all tables that requests reach.
pub mod Safety
use hysteria2_panel.Prelude.{refl, String, Option, ok, err, Commits}
use hysteria2_panel.Nodes.Database.{Database, Tx}
use hysteria2_panel.Nodes.Invariant.Authorization.{
  authorize_distributed_node-Consistent, authorize_local_participant-Consistent,
}
use hysteria2_panel.Nodes.Invariant.Accounts.{
  create_proxy_user-Consistent, set_proxy_user_enabled-Consistent, rotate_proxy_token-Consistent,
  delete_proxy_user-Consistent, reset_proxy_user_traffic-Consistent,
  update_proxy_user_limits-Consistent, expire_proxy_users-Consistent, reset_monthly-Consistent,
  apply_traffic_batch-Consistent, apply_node_traffic_batch-Consistent,
}
use hysteria2_panel.Nodes.Invariant.Commands.Acks.{ack_node_command-Consistent}
use hysteria2_panel.Nodes.Invariant.Registration.Uses.{
  revoke_node_enrollment-Consistent, consume_node_enrollment-Consistent,
}
use hysteria2_panel.Nodes.Invariant.{Consistent}
use hysteria2_panel.Nodes.Invariant.Admission.{
  verify_node-Consistent, revoke_node-Consistent, set_node_policy_state-Consistent,
  mark_node_direct_canary_passed-Consistent, mark_node_dns_admitted-Consistent,
  remove_node_dns_admission-Consistent,
}
use hysteria2_panel.Nodes.Invariant.Lifecycle.{
  begin_node_drain-Consistent, request_node_stop-Consistent, request_node_resume-Consistent,
  archive_stopped_node-Consistent, request_node_disconnect-Consistent,
  delete_node_pairing-Consistent,
}
use hysteria2_panel.Nodes.Invariant.Commands.{
  queue_node_command-Consistent, poll_node_commands-Consistent,
}
use hysteria2_panel.Nodes.Invariant.Bootstrap.{
  accept_node_heartbeat-Consistent, create_grant-Consistent, fetch_bootstrap-Consistent,
  acknowledge_bootstrap-Consistent,
}
use hysteria2_panel.Nodes.Invariant.Registration.{
  accept_node_online_snapshot-Consistent, create_node_enrollment-Consistent,
}
use hysteria2_panel.Nodes.BudgetDrain.Stops.{
  confirm_node_budget_dns_removed-Consistent, reconcile_node_budgets-Consistent,
  set_origin_budget-Consistent,
}
use hysteria2_panel.Nodes.Requests.{
  Request, commit, run, Reaches, start, step, announce, withdraw, enroll, verify, revoke, heartbeat,
  policy, canary, admit, withdraw_dns, drain, stop, resume, archive, disconnect, delete_pairing,
  queue, poll, ack, grant, fetch, installed, online, authorize_remote, authorize_local, create_user,
  enable_user, rotate_token, delete_user, reset_user, change_limits, expire, new_month, traffic,
  node_traffic, set_budget, budget_dns_removed, reconcile,
}

commit-Consistent :
    {A : Type 0} (db : Database) (m : Tx A)
    → Consistent db
    → Commits Consistent m
    → Consistent (commit db m)
commit-Consistent db (ok (a, db')) c h = h.at a db' refl
commit-Consistent db (err e) c h = c

module _ (canonical_ip : String → Option String) (key_fingerprint : String → Option String)
    (name_fingerprint : String → String) (sha256 : String → Option String)
    (token_fingerprint casefold : String → String) where
  -- Every request keeps the tables consistent: ids stay primary keys and a node keeps its one
  -- enrollment; a node in DNS is verified, has an installed data plane and a passed canary, and is
  -- registered and under the protocol unless it is archived; a node that is stopping, starting or
  -- disconnecting has the command pending that ends this; and the node of an unused enrollment has
  -- not registered.
  pub run-Consistent :
      (r : Request) (db : Database)
      → Consistent db
      → Consistent
          (run canonical_ip key_fingerprint name_fingerprint sha256 token_fingerprint casefold r db)
  unfolding run
  run-Consistent (announce n e name ip actor token at expires tier region host port hopping) db c =
      commit-Consistent db _ c (
        create_node_enrollment-Consistent n e name ip actor token at expires tier region host port
          hopping db c)
  run-Consistent (withdraw e at) db c =
      commit-Consistent db _ c (revoke_node_enrollment-Consistent e at db c)
  run-Consistent (enroll token r at) db c =
      commit-Consistent db _ c (consume_node_enrollment-Consistent token r at db c)
  run-Consistent (verify n fingerprint actor at) db c =
      commit-Consistent db _ c (verify_node-Consistent db c n key_fingerprint fingerprint actor at)
  run-Consistent (revoke n) db c = commit-Consistent db _ c (revoke_node-Consistent db c n)
  run-Consistent (heartbeat n nonce at ip version) db c =
      commit-Consistent db _ c
        (accept_node_heartbeat-Consistent canonical_ip db c n nonce at ip version)
  run-Consistent (policy n state actor at) db c =
      commit-Consistent db _ c (set_node_policy_state-Consistent db c n state actor at)
  run-Consistent (canary n actor at) db c =
      commit-Consistent db _ c (mark_node_direct_canary_passed-Consistent db c n actor at)
  run-Consistent (admit n actor at) db c =
      commit-Consistent db _ c (mark_node_dns_admitted-Consistent db c n actor at)
  run-Consistent (withdraw_dns n actor at) db c =
      commit-Consistent db _ c (remove_node_dns_admission-Consistent db c n actor at)
  run-Consistent (drain n actor at) db c =
      commit-Consistent db _ c (begin_node_drain-Consistent db c n actor at)
  run-Consistent (stop k n actor at removed emergency freshness) db c =
      commit-Consistent db _ c
        (request_node_stop-Consistent db c n k actor at removed emergency freshness)
  run-Consistent (resume k n actor at) db c =
      commit-Consistent db _ c (request_node_resume-Consistent db c n k actor at)
  run-Consistent (archive n actor at) db c =
      commit-Consistent db _ c (archive_stopped_node-Consistent db c n actor at)
  run-Consistent (disconnect k n actor at freshness) db c =
      commit-Consistent db _ c (request_node_disconnect-Consistent db c n k actor at freshness)
  run-Consistent (delete_pairing n actor at) db c =
      commit-Consistent db _ c (delete_node_pairing-Consistent db c n actor at)
  run-Consistent (queue k n kind users at) db c =
      commit-Consistent db _ c (queue_node_command-Consistent k n kind users at db c)
  run-Consistent (poll n nonce at) db c =
      commit-Consistent db _ c (poll_node_commands-Consistent n nonce at db c)
  run-Consistent (ack n k done error nonce at) db c =
      commit-Consistent db _ c (ack_node_command-Consistent n k done error nonce at db c)
  run-Consistent (grant g n token ip actor at expires auto nonce) db c =
      commit-Consistent db _ c
        (create_grant-Consistent canonical_ip db c g n token ip actor at expires auto nonce)
  run-Consistent (fetch n token ip nonce at) db c =
      commit-Consistent db _ c (fetch_bootstrap-Consistent canonical_ip db c n token ip nonce at)
  run-Consistent (installed n token ip nonce at passed) db c =
      commit-Consistent db _ c
        (acknowledge_bootstrap-Consistent canonical_ip db c n token ip nonce at passed)
  run-Consistent (online s counts nonce) db c =
      commit-Consistent db _ c
        (accept_node_online_snapshot-Consistent name_fingerprint s counts nonce db c)
  run-Consistent (authorize_remote local n request decision token nonce at freshness) db c =
      commit-Consistent db _ c (
        authorize_distributed_node-Consistent sha256 token_fingerprint local n request decision
          token nonce at freshness db c)
  run-Consistent (authorize_local local l name at freshness seconds) db c =
      commit-Consistent db _ c
        (authorize_local_participant-Consistent local l name at freshness seconds db c)
  run-Consistent (create_user name token devices limit udp type expires starts at) db c =
      commit-Consistent db _ c (
        create_proxy_user-Consistent casefold name_fingerprint token_fingerprint name token devices
          limit udp type expires starts at db c)
  run-Consistent (enable_user id enabled expected at) db c =
      commit-Consistent db _ c (set_proxy_user_enabled-Consistent id enabled expected at db c)
  run-Consistent (rotate_token id token expected drain_local at) db c =
      commit-Consistent db _ c
        (rotate_proxy_token-Consistent token_fingerprint id token expected drain_local at db c)
  run-Consistent (delete_user id expected) db c =
      commit-Consistent db _ c (delete_proxy_user-Consistent name_fingerprint id expected db c)
  run-Consistent (reset_user id expected at) db c =
      commit-Consistent db _ c (reset_proxy_user_traffic-Consistent id expected at db c)
  run-Consistent (change_limits fresh_id id change expected at) db c =
      commit-Consistent db _ c
        (update_proxy_user_limits-Consistent casefold fresh_id id change expected at db c)
  run-Consistent (expire fresh_id at) db c =
      commit-Consistent db _ c (expire_proxy_users-Consistent casefold fresh_id at db c)
  run-Consistent (new_month at) db c = reset_monthly-Consistent at db c
  run-Consistent (traffic fresh_id batch_id entries s t) db c =
      commit-Consistent db _ c
        (apply_traffic_batch-Consistent casefold fresh_id batch_id entries s t db c)
  run-Consistent (node_traffic fresh_id r nonce) db c =
      commit-Consistent db _ c (apply_node_traffic_batch-Consistent casefold fresh_id r nonce db c)
  run-Consistent (set_budget change) db c =
      commit-Consistent db _ c (set_origin_budget-Consistent change db c)
  run-Consistent (budget_dns_removed n at) db c =
      commit-Consistent db _ c (confirm_node_budget_dns_removed-Consistent n at db c)
  run-Consistent (reconcile fresh_id local_origin_id at) db c =
      commit-Consistent db _ c (reconcile_node_budgets-Consistent fresh_id at db local_origin_id c)

  -- What is kept by every request holds in every state that requests reach.
  pub Reaches-Consistent :
      (db : Database)
      → Reaches canonical_ip key_fingerprint name_fingerprint sha256 token_fingerprint casefold db
      → Consistent db
  Reaches-Consistent _ (start users retired profiles) = record {
    node_key = tt;
    command_key = tt;
    serving = tt;
    awaited = tt;
    enrollment_key = tt;
    enrolled = tt;
  }
  Reaches-Consistent _ (step db r before) = run-Consistent r db (Reaches-Consistent db before)
