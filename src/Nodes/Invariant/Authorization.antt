-- ===== src/Nodes/Invariant/Authorization.antt =====
-- The transactions of `Nodes.Authorization` keep the tables consistent.
use hysteria2_panel.Prelude.{ℕ, String, false, Option, Commits, commits_rules}
use hysteria2_panel.Nodes.Row.{Tier, AuthDecision}
use hysteria2_panel.Nodes.Database.{Database, Commits-or_return}
use hysteria2_panel.Nodes.Bootstrap.{nonce_row}
use hysteria2_panel.Nodes.Authorization.{
  decide, authorize, authorize_node, authorize_distributed_node,
}
use hysteria2_panel.Nodes.Authorization.Local.{check_local, authorize_local_participant}
use hysteria2_panel.Nodes.Invariant.{Consistent}
use hysteria2_panel.Nodes.Invariant.Bootstrap.{after_consume}

module _ (db : Database) (c : Consistent db) where
  decide-Consistent : (d : AuthDecision) (now : ℕ) → Commits Consistent (decide d now db)
  unfolding decide
  decide-Consistent d now = search (commits_rules, c) depth 6

  authorize-Consistent :
      (sha256 : String → Option String) (fingerprint : String → String) (local_online : String → ℕ)
      (node_id request_id decision_id token : String) (now freshness : ℕ) (tier : Tier)
      → Commits Consistent (
          authorize sha256 fingerprint local_online node_id request_id decision_id token now
            freshness tier db)
  unfolding authorize
  authorize-Consistent sha256 fingerprint local_online node_id request_id decision_id token now
        freshness tier =
      search (commits_rules, c, decide-Consistent) depth 10

  authorize_node-Consistent :
      (sha256 : String → Option String) (fingerprint : String → String) (local_online : String → ℕ)
      (node_id request_id decision_id token : String) (now freshness : ℕ)
      → Commits Consistent (
          authorize_node sha256 fingerprint local_online node_id request_id decision_id token now
            freshness db)
  authorize_node-Consistent sha256 fingerprint local_online node_id request_id decision_id token now
        freshness =
      search (commits_rules, authorize-Consistent) depth 8

  check_local-Consistent :
      (local_online : String → ℕ) (lease_id name : String) (now freshness lease_seconds : ℕ)
      → Commits Consistent (check_local local_online lease_id name now freshness lease_seconds db)
  check_local-Consistent local_online lease_id name now freshness lease_seconds =
      search (commits_rules, c) depth 12

pub authorize_distributed_node-Consistent :
    (sha256 : String → Option String) (fingerprint : String → String) (local_online : String → ℕ)
    (node_id request_id decision_id token nonce_digest : String) (now freshness : ℕ) (db : Database)
    → Consistent db
    → Commits Consistent (
        authorize_distributed_node sha256 fingerprint local_online node_id request_id decision_id
          token nonce_digest now freshness db)
unfolding authorize_distributed_node
authorize_distributed_node-Consistent sha256 fingerprint local_online node_id request_id decision_id
      token nonce_digest now freshness db c =
    after_consume (nonce_row node_id "auth" nonce_digest now) db _ c (λ d k.
      authorize_node-Consistent d k sha256 fingerprint local_online node_id request_id decision_id
        token now freshness)

pub authorize_local_participant-Consistent :
    (local_online : String → ℕ) (lease_id name : String) (now freshness lease_seconds : ℕ)
    (db : Database)
    → Consistent db
    → Commits Consistent
        (authorize_local_participant local_online lease_id name now freshness lease_seconds db)
unfolding authorize_local_participant
authorize_local_participant-Consistent local_online lease_id name now freshness lease_seconds db c =
    Commits-or_return false db
      (check_local local_online lease_id name now freshness lease_seconds db) c
      (check_local-Consistent db c local_online lease_id name now freshness lease_seconds)
