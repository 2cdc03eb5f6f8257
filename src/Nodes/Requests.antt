-- ===== src/Nodes/Requests.antt =====
-- Every transaction of the node control plane as one request, and the tables that sequences of requests
-- reach from empty ones. Each transaction is serialised by `BEGIN IMMEDIATE`, so an interleaving of
-- callers is a sequence of requests.
use hysteria2_panel.Prelude.{ℕ, String, Bool, Option, List, ok, err}
use hysteria2_panel.Nodes.Row.{Kind, PolicyState, Tier, Snapshot, User, Profile}
use hysteria2_panel.Nodes.Database.{Database, empty_database, Tx}
use hysteria2_panel.Nodes.Enrollment.{Registration, revoke_node_enrollment, consume_node_enrollment}
use hysteria2_panel.Nodes.Enrollment.Announcement.{create_node_enrollment}
use hysteria2_panel.Nodes.Admission.{
  verify_node, revoke_node, accept_node_heartbeat, set_node_policy_state,
  mark_node_direct_canary_passed, mark_node_dns_admitted, remove_node_dns_admission,
}
use hysteria2_panel.Nodes.Lifecycle.{
  begin_node_drain, request_node_stop, request_node_resume, archive_stopped_node,
  request_node_disconnect, delete_node_pairing,
}
use hysteria2_panel.Nodes.Commands.{queue_node_command, ack_node_command}
use hysteria2_panel.Nodes.Commands.Delivery.{poll_node_commands}
use hysteria2_panel.Nodes.Bootstrap.{create_grant, fetch_bootstrap}
use hysteria2_panel.Nodes.Bootstrap.Ack.{acknowledge_bootstrap}
use hysteria2_panel.Nodes.Online.{accept_node_online_snapshot}
use hysteria2_panel.Nodes.Authorization.{authorize_distributed_node}
use hysteria2_panel.Nodes.Authorization.Local.{authorize_local_participant}
use hysteria2_panel.Users.{
  create_proxy_user, set_proxy_user_enabled, rotate_proxy_token, delete_proxy_user,
}
use hysteria2_panel.Users.Traffic.{reset_proxy_user_traffic, reset_monthly_traffic_if_due}
use hysteria2_panel.Users.Expiry.{expire_proxy_users}
use hysteria2_panel.Users.Limits.{Change, update_proxy_user_limits}
use hysteria2_panel.Traffic.Batches.{Traffic, Source, Times, apply_traffic_batch}
use hysteria2_panel.Traffic.NodeBatches.{Report, apply_node_traffic_batch}
use hysteria2_panel.Nodes.BudgetDrain.{confirm_node_budget_dns_removed, reconcile_node_budgets}
use hysteria2_panel.Traffic.Budgets.{BudgetChange, set_origin_budget}

pub data Request : Type 0 where
  announce :
      (node_id enrollment_id name : String) (expected_ip : Option String) (actor token : String)
      (at expires : ℕ) (tier : Tier) (region host : String) (port : ℕ) (hopping : Bool)
      → Request
  withdraw : (enrollment_id : String) (at : ℕ) → Request
  enroll : (token : String) (r : Registration) (at : ℕ) → Request
  verify : (node_id fingerprint actor : String) (at : ℕ) → Request
  revoke : (node_id : String) → Request
  heartbeat : (node_id nonce : String) (at : ℕ) (ip version : String) → Request
  policy : (node_id : String) (state : PolicyState) (actor : String) (at : ℕ) → Request
  canary : (node_id actor : String) (at : ℕ) → Request
  admit : (node_id actor : String) (at : ℕ) → Request
  withdraw_dns : (node_id actor : String) (at : ℕ) → Request
  drain : (node_id actor : String) (at : ℕ) → Request
  stop :
      (command_id node_id actor : String) (at : ℕ) (dns_removed emergency : Bool) (freshness : ℕ)
      → Request
  resume : (command_id node_id actor : String) (at : ℕ) → Request
  archive : (node_id actor : String) (at : ℕ) → Request
  disconnect : (command_id node_id actor : String) (at freshness : ℕ) → Request
  delete_pairing : (node_id actor : String) (at : ℕ) → Request
  queue : (command_id node_id : String) (kind : Kind) (users : List String) (at : ℕ) → Request
  poll : (node_id nonce : String) (at : ℕ) → Request
  ack : (node_id command_id : String) (done : Bool) (error nonce : String) (at : ℕ) → Request
  grant :
      (grant_id node_id token bound_ip actor : String) (at expires : ℕ) (auto : Bool)
      (nonce : String)
      → Request
  fetch : (node_id token ip nonce : String) (at : ℕ) → Request
  installed : (node_id token ip nonce : String) (at : ℕ) (passed : Bool) → Request
  online : (s : Snapshot) (counts : List (String × ℕ)) (nonce : String) → Request
  authorize_remote :
      (local_online : String → ℕ) (node_id request_id decision_id token nonce : String)
      (at freshness : ℕ)
      → Request
  authorize_local :
      (local_online : String → ℕ) (lease_id name : String) (at freshness lease_seconds : ℕ)
      → Request
  create_user :
      (name token : String) (device_limit traffic_limit : ℕ) (udp : Bool) (type : ℕ)
      (expires starts : Option ℕ) (at : ℕ)
      → Request
  enable_user : (id : ℕ) (enabled : Bool) (expected : Option ℕ) (at : ℕ) → Request
  rotate_token :
      (id : ℕ) (token : String) (expected : Option ℕ) (drain_local : Bool) (at : ℕ) → Request
  delete_user : (id : ℕ) (expected : Option ℕ) → Request
  reset_user : (id : ℕ) (expected : Option ℕ) (at : ℕ) → Request
  change_limits :
      (fresh_id : ℕ → String) (id : ℕ) (c : Change) (expected : Option ℕ) (at : ℕ) → Request
  expire : (fresh_id : ℕ → String) (at : ℕ) → Request
  new_month : (at : ℕ) → Request
  traffic :
      (fresh_id : ℕ → String) (batch_id : String) (entries : Traffic) (s : Source) (t : Times)
      → Request
  node_traffic : (fresh_id : ℕ → String) (r : Report) (nonce : String) → Request
  set_budget : (change : BudgetChange) → Request
  budget_dns_removed : (node_id : String) (at : ℕ) → Request
  reconcile : (fresh_id : ℕ → String) (local_origin_id : String) (at : ℕ) → Request

-- The tables after a transaction: those from before where it raised
abbrev pub commit : {A : Type 0} → Database → Tx A → Database
commit db (ok (a, db')) = db'
commit db (err e) = db

-- `str(ipaddress.ip_address(ip))`, the fingerprint of a public key, `_retired_name_fingerprint`, the
-- digest of a token, `_fingerprint`, and `str.casefold`
module _ (canonical_ip : String → Option String) (key_fingerprint : String → Option String)
    (name_fingerprint : String → String) (sha256 : String → Option String)
    (token_fingerprint casefold : String → String) where
  unfoldable pub run : Request → Database → Database
  run (announce n e name ip actor token at expires tier region host port hopping) db =
      commit db
        (create_node_enrollment n e name ip actor token at expires tier region host port hopping db)
  run (withdraw e at) db = commit db (revoke_node_enrollment e at db)
  run (enroll token r at) db = commit db (consume_node_enrollment token r at db)
  run (verify n fingerprint actor at) db =
      commit db (verify_node key_fingerprint n fingerprint actor at db)
  run (revoke n) db = commit db (revoke_node n db)
  run (heartbeat n nonce at ip version) db =
      commit db (accept_node_heartbeat canonical_ip n nonce at ip version db)
  run (policy n state actor at) db = commit db (set_node_policy_state n state actor at db)
  run (canary n actor at) db = commit db (mark_node_direct_canary_passed n actor at db)
  run (admit n actor at) db = commit db (mark_node_dns_admitted n actor at db)
  run (withdraw_dns n actor at) db = commit db (remove_node_dns_admission n actor at db)
  run (drain n actor at) db = commit db (begin_node_drain n actor at db)
  run (stop k n actor at removed emergency freshness) db =
      commit db (request_node_stop k n actor at removed emergency freshness db)
  run (resume k n actor at) db = commit db (request_node_resume k n actor at db)
  run (archive n actor at) db = commit db (archive_stopped_node n actor at db)
  run (disconnect k n actor at freshness) db =
      commit db (request_node_disconnect k n actor at freshness db)
  run (delete_pairing n actor at) db = commit db (delete_node_pairing n actor at db)
  run (queue k n kind users at) db = commit db (queue_node_command k n kind users at db)
  run (poll n nonce at) db = commit db (poll_node_commands n nonce at db)
  run (ack n k done error nonce at) db = commit db (ack_node_command n k done error nonce at db)
  run (grant g n token ip actor at expires auto nonce) db =
      commit db (create_grant canonical_ip g n token ip actor at expires auto nonce db)
  run (fetch n token ip nonce at) db =
      commit db (fetch_bootstrap canonical_ip n token ip nonce at db)
  run (installed n token ip nonce at passed) db =
      commit db (acknowledge_bootstrap canonical_ip n token ip nonce at passed db)
  run (online s counts nonce) db =
      commit db (accept_node_online_snapshot name_fingerprint s counts nonce db)
  run (authorize_remote local n request decision token nonce at freshness) db = commit db (
      authorize_distributed_node sha256 token_fingerprint local n request decision token nonce at
        freshness db)
  run (authorize_local local l name at freshness seconds) db =
      commit db (authorize_local_participant local l name at freshness seconds db)
  run (create_user name token devices limit udp type expires starts at) db = commit db (
      create_proxy_user casefold name_fingerprint token_fingerprint name token devices limit udp
        type expires starts at db)
  run (enable_user id enabled expected at) db =
      commit db (set_proxy_user_enabled id enabled expected at db)
  run (rotate_token id token expected drain_local at) db =
      commit db (rotate_proxy_token token_fingerprint id token expected drain_local at db)
  run (delete_user id expected) db = commit db (delete_proxy_user name_fingerprint id expected db)
  run (reset_user id expected at) db = commit db (reset_proxy_user_traffic id expected at db)
  run (change_limits fresh_id id c expected at) db =
      commit db (update_proxy_user_limits casefold fresh_id id c expected at db)
  run (expire fresh_id at) db = commit db (expire_proxy_users casefold fresh_id at db)
  run (new_month at) db = (reset_monthly_traffic_if_due at db).1
  run (traffic fresh_id batch_id entries s t) db =
      commit db (apply_traffic_batch casefold fresh_id batch_id entries s t db)
  run (node_traffic fresh_id r nonce) db =
      commit db (apply_node_traffic_batch casefold fresh_id r nonce db)
  run (set_budget change) db = commit db (set_origin_budget change db)
  run (budget_dns_removed n at) db = commit db (confirm_node_budget_dns_removed n at db)
  run (reconcile fresh_id local_origin_id at) db =
      commit db (reconcile_node_budgets fresh_id at local_origin_id db)

  -- The tables that requests reach from empty ones, whatever the accounts and the retired names
  pub data Reaches : Database → Type 0 where
    start :
        (users : List User) (retired : List String) (profiles : List Profile)
        → Reaches
            (record empty_database { users = users; retired_names = retired; profiles = profiles })
    step : (db : Database) (r : Request) → Reaches db → Reaches (run r db)
