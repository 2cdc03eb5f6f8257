-- ===== src/Nodes/Invariant/Admission.antt =====
-- The transactions of `Nodes.Admission` keep the tables consistent.
use hysteria2_panel.Prelude.{
  ℕ, ◌≡◌, refl, String, Bool, true, not, Option, arith, Commits, commits_rules,
}
use hysteria2_panel.Nodes.Row.{Node, PolicyState}
use hysteria2_panel.Nodes.Database.{Database}
use hysteria2_panel.Nodes.Admission.{
  set_nodes, verified_row, revoked_row, enabled_row, disabled_row, canary_row, admitted_row,
  removed_row, registered_node, beating_node, still_admitted, canary_node, admissible_node, in_dns,
  verify_node, revoke_node, set_node_policy_state, mark_node_direct_canary_passed,
  mark_node_dns_admitted, remove_node_dns_admission,
}
use hysteria2_panel.Nodes.Database.{node_is}
use hysteria2_panel.Nodes.Invariant.{Consistent}
use hysteria2_panel.Nodes.Invariant.Rules.{update-Consistent}

module _ (db : Database) (c : Consistent db) (node_id : String) where
  abbrev Keeps : (Node → Bool) → (Node → Node) → Type 0
  Keeps test change = Consistent (set_nodes test change db)

  verified_step :
      (at : ℕ) (actor : String) → Keeps (registered_node node_id) (verified_row at actor)
  verified_step at actor =
      update-Consistent db node_id (registered_node node_id) (verified_row at actor) (λ x. refl)
        (λ x t. ground arith) (λ x t e s. ground arith) (λ x t a. ground arith)
        (λ x t p. ground arith) c

  revoked_step : not (still_admitted node_id db) ≡ true → Keeps (node_is node_id) revoked_row
  revoked_step g =
      update-Consistent db node_id (node_is node_id) revoked_row (λ x. refl) (λ x t. t)
        (λ x t e s. ground arith) (λ x t a. ground arith) (λ x t p. ground arith) c

  enabled_step :
      (since at : ℕ) (actor : String) → Keeps (beating_node node_id since) (enabled_row at actor)
  enabled_step since at actor =
      update-Consistent db node_id (beating_node node_id since) (enabled_row at actor) (λ x. refl)
        (λ x t. ground arith) (λ x t e s. ground arith) (λ x t a. ground arith)
        (λ x t p. ground arith) c

  disabled_step :
      not (still_admitted node_id db) ≡ true → Keeps (registered_node node_id) disabled_row
  disabled_step g =
      update-Consistent db node_id (registered_node node_id) disabled_row (λ x. refl)
        (λ x t. ground arith) (λ x t e s. ground arith) (λ x t a. ground arith)
        (λ x t p. ground arith) c

  canary_step : (at : ℕ) → Keeps (canary_node node_id) (canary_row at)
  canary_step at =
      update-Consistent db node_id (canary_node node_id) (canary_row at) (λ x. refl)
        (λ x t. ground arith) (λ x t e s. ground arith) (λ x t a. ground arith)
        (λ x t p. ground arith) c

  admitted_step :
      (since at : ℕ) (actor : String)
      → Keeps (admissible_node node_id since) (admitted_row at actor)
  admitted_step since at actor =
      update-Consistent db node_id (admissible_node node_id since) (admitted_row at actor)
        (λ x. refl) (λ x t. ground arith) (λ x t e s. ground arith) (λ x t a. ground arith)
        (λ x t p. ground arith) c

  removed_step : (at : ℕ) (actor : String) → Keeps (in_dns node_id) (removed_row at actor)
  removed_step at actor =
      update-Consistent db node_id (in_dns node_id) (removed_row at actor) (λ x. refl)
        (λ x t. ground arith) (λ x t e s. ground arith) (λ x t a. ground arith)
        (λ x t p. ground arith) c

  pub verify_node-Consistent :
      (key_fingerprint : String → Option String) (fingerprint actor : String) (at : ℕ)
      → Commits Consistent (verify_node key_fingerprint node_id fingerprint actor at db)
  unfolding verify_node
  verify_node-Consistent key_fingerprint fingerprint actor at =
      search (commits_rules, c, verified_step) depth 12

  pub revoke_node-Consistent : Commits Consistent (revoke_node node_id db)
  unfolding revoke_node
  revoke_node-Consistent = search (commits_rules, c, revoked_step) depth 8

  pub set_node_policy_state-Consistent :
      (state : PolicyState) (actor : String) (at : ℕ)
      → Commits Consistent (set_node_policy_state node_id state actor at db)
  unfolding set_node_policy_state
  set_node_policy_state-Consistent state actor at =
      search (commits_rules, c, enabled_step, disabled_step) depth 10

  pub mark_node_direct_canary_passed-Consistent :
      (actor : String) (at : ℕ)
      → Commits Consistent (mark_node_direct_canary_passed node_id actor at db)
  unfolding mark_node_direct_canary_passed
  mark_node_direct_canary_passed-Consistent actor at =
      search (commits_rules, c, canary_step) depth 12

  pub mark_node_dns_admitted-Consistent :
      (actor : String) (at : ℕ) → Commits Consistent (mark_node_dns_admitted node_id actor at db)
  unfolding mark_node_dns_admitted
  mark_node_dns_admitted-Consistent actor at = search (commits_rules, c, admitted_step) depth 12

  pub remove_node_dns_admission-Consistent :
      (actor : String) (at : ℕ) → Commits Consistent (remove_node_dns_admission node_id actor at db)
  unfolding remove_node_dns_admission
  remove_node_dns_admission-Consistent actor at = search (commits_rules, c, removed_step) depth 12
