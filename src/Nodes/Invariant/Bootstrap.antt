-- ===== src/Nodes/Invariant/Bootstrap.antt =====
-- The transactions of `Nodes.Bootstrap`, and the heartbeat, keep the tables consistent.
use hysteria2_panel.Prelude.{
  ℕ, ◌≡◌, ◌==◌, ◌>>◌, ◌>>=◌, refl, subst, String, Bool, true, false, Option, ok, some, guard,
  guard-ok, bind-ok, ok-injective, arith, row_count, update, Commits, Commits-ok, commits_rules,
}
use hysteria2_panel.Nodes.Row.{Grant, NonceRow}
use hysteria2_panel.Nodes.Database.{Database, Error, Tx, Commits-or_return}
use hysteria2_panel.Nodes.Nonce.{consume_request_nonce, consume_heartbeat_nonce}
use hysteria2_panel.Nodes.Admission.{
  one_row, set_nodes, enabled_row, beat_row, verified_node, record_beat, accept_node_heartbeat,
}
use hysteria2_panel.Nodes.Bootstrap.{
  nonce_row, enabling_node, enable_protocol, granted_node, issued_row, issue, with_grant,
  grant_collides, insert_grant, claim, issue_grant, create_grant, count_fetch, fetch_bootstrap,
}
use hysteria2_panel.Nodes.Bootstrap.Ack.{
  fetching_node, installed, record_installed, acknowledge_bootstrap,
}
use hysteria2_panel.Nodes.Invariant.{Consistent}
use hysteria2_panel.Nodes.Invariant.Rules.{
  Commits-after, update-Consistent, consume_request-Consistent, consume_heartbeat-Consistent,
}

enabled_step :
    (db : Database) (node_id actor : String) (at : ℕ)
    → Consistent db
    → Consistent (set_nodes (enabling_node node_id at) (enabled_row at actor) db)
enabled_step db node_id actor at c =
    update-Consistent db node_id (enabling_node node_id at) (enabled_row at actor) (λ x. refl)
      (λ x t. ground arith) (λ x t e s. ground arith) (λ x t a. ground arith)
      (λ x t p. ground arith) c

issued_step :
    (db : Database) (node_id : String)
    → Consistent db
    → Consistent (set_nodes (granted_node node_id) issued_row db)
unfolding issue
issued_step db node_id c =
    update-Consistent db node_id (granted_node node_id) issued_row (λ x. refl) (λ x t. ground arith)
      (λ x t e s. ground arith) (λ x t a. ground arith) (λ x t p. ground arith) c

installed_step :
    (db : Database) (node_id : String) (passed : Bool) (at : ℕ)
    → Consistent db
    → Consistent (set_nodes (fetching_node node_id) (installed passed at) db)
unfolding installed
installed_step db node_id passed at c =
    update-Consistent db node_id (fetching_node node_id) (installed passed at) (λ x. refl)
      (λ x t. ground arith) (λ x t e s. ground arith) (λ x t a. ground arith)
      (λ x t p. ground arith) c

beat_step :
    (db : Database) (node_id ip version : String) (at : ℕ)
    → Consistent db
    → Consistent (set_nodes (verified_node node_id) (beat_row at ip version) db)
beat_step db node_id ip version at c =
    update-Consistent db node_id (verified_node node_id) (beat_row at ip version) (λ x. refl)
      (λ x t. ground arith) (λ x t e s. ground arith) (λ x t a. ground arith)
      (λ x t p. ground arith) c

claim-Consistent :
    (auto : Bool) (node_id actor nonce_digest : String) (at : ℕ) (db db' : Database)
    → claim auto node_id actor nonce_digest at db ≡ ok db'
    → Consistent db
    → Consistent db'
unfolding claim enable_protocol
claim-Consistent false node_id actor nonce_digest at db db' e c =
    subst Consistent (ok-injective e) c
claim-Consistent true node_id actor nonce_digest at db db' e c =
    let row = nonce_row node_id "bootstrap-claim" nonce_digest at in
    let enabled = λ (d : Database). set_nodes (enabling_node node_id at) (enabled_row at actor) d in
    let write = λ (d : Database).
      guard (one_row (enabling_node node_id at) d) Error.integrity_error >> ok (enabled d) in
    let (d, consumed, rest) = bind-ok (consume_request_nonce row db) write e in
    let (_, done) =
      guard-ok (one_row (enabling_node node_id at) d) Error.integrity_error (ok (enabled d)) rest in
    subst Consistent (ok-injective done)
      (enabled_step d node_id actor at (consume_request-Consistent row db d consumed c))

insert_grant-Consistent :
    (g : Grant) (db db' : Database) → insert_grant g db ≡ ok db' → Consistent db → Consistent db'
unfolding insert_grant
insert_grant-Consistent g db db' e c =
    let written : Database = record db {
      nodes = update (granted_node g.node_id) issued_row db.nodes;
      grants = with_grant g db.grants;
    } in
    let here = one_row (granted_node g.node_id) db in
    let (_, rest) =
      guard-ok (row_count (grant_collides g) db.grants == 0) Error.integrity_error
        (guard here Error.integrity_error >> ok written) e in
    let (_, done) = guard-ok here Error.integrity_error (ok written) rest in
    subst Consistent (ok-injective done) (issued_step db g.node_id c)

issue_grant-Consistent :
    (g : Grant) (actor nonce_digest : String) (db : Database)
    → Consistent db
    → Commits Consistent (issue_grant g actor nonce_digest db)
issue_grant-Consistent g actor nonce_digest db c =
    Commits-after (claim g.automatic_canary g.node_id actor nonce_digest g.created_at db)
      (λ d. insert_grant g d >>= λ d'. ok (some g, d'))
      (λ d e.
        claim-Consistent g.automatic_canary g.node_id actor nonce_digest g.created_at db d e c)
      (λ d k.
        Commits-after (insert_grant g d) (λ d'. ok (some g, d'))
          (λ d' e. insert_grant-Consistent g d d' e k) (λ d' h. Commits-ok (some g) d' h))

pub after_consume :
    {A : Type 0} (row : NonceRow) (db : Database) (k : Database → Tx A)
    → Consistent db
    → ((d : Database) → Consistent d → Commits Consistent (k d))
    → Commits Consistent (consume_request_nonce row db >>= k)
after_consume row db k c =
    Commits-after (consume_request_nonce row db) k (λ d e. consume_request-Consistent row db d e c)

after_heartbeat :
    {A : Type 0} (row : NonceRow) (db : Database) (k : Database → Tx A)
    → Consistent db
    → ((d : Database) → Consistent d → Commits Consistent (k d))
    → Commits Consistent (consume_heartbeat_nonce row db >>= k)
after_heartbeat row db k c =
    Commits-after (consume_heartbeat_nonce row db) k
      (λ d e. consume_heartbeat-Consistent row db d e c)

count_fetch-Consistent :
    (g : Grant) (nonce_digest : String) (now : ℕ) (db : Database)
    → Consistent db
    → Commits Consistent (count_fetch g nonce_digest now db)
count_fetch-Consistent g nonce_digest now db c = search (commits_rules, after_consume, c) depth 10

record_installed-Consistent :
    (g : Grant) (nonce_digest : String) (passed : Bool) (at : ℕ) (db : Database)
    → Consistent db
    → Commits Consistent (record_installed g nonce_digest passed at db)
record_installed-Consistent g nonce_digest passed at db c =
    after_consume (nonce_row g.node_id "data-plane-ack" nonce_digest at) db _ c λ d k.
      let step = installed_step d g.node_id passed at k in search (commits_rules, step) depth 10

record_beat-Consistent :
    (row : NonceRow) (ip version : String) (db : Database)
    → Consistent db
    → Commits Consistent (record_beat row ip version db)
record_beat-Consistent row ip version db c = after_heartbeat row db _ c λ d k.
    let step = beat_step d row.node_id ip version row.accepted_at k in
    search (commits_rules, step) depth 10

module _ (canonical_ip : String → Option String) (db : Database) (c : Consistent db) where
  pub accept_node_heartbeat-Consistent :
      (node_id nonce_digest : String) (at : ℕ) (remote_ip agent_version : String)
      → Commits Consistent
          (accept_node_heartbeat canonical_ip node_id nonce_digest at remote_ip agent_version db)
  unfolding accept_node_heartbeat
  accept_node_heartbeat-Consistent node_id nonce_digest at remote_ip agent_version =
      search (commits_rules, Commits-or_return, c, record_beat-Consistent) depth 10

  pub create_grant-Consistent :
      (grant_id node_id token_digest bound_ip actor : String) (at expires : ℕ) (auto : Bool)
      (nonce_digest : String)
      → Commits Consistent (
          create_grant canonical_ip grant_id node_id token_digest bound_ip actor at expires auto
            nonce_digest db)
  unfolding create_grant
  create_grant-Consistent grant_id node_id token_digest bound_ip actor at expires auto
        nonce_digest =
      search (commits_rules, Commits-or_return, c, issue_grant-Consistent) depth 10

  pub fetch_bootstrap-Consistent :
      (node_id token_digest remote_ip nonce_digest : String) (at : ℕ)
      → Commits Consistent
          (fetch_bootstrap canonical_ip node_id token_digest remote_ip nonce_digest at db)
  unfolding fetch_bootstrap
  fetch_bootstrap-Consistent node_id token_digest remote_ip nonce_digest at =
      search (commits_rules, Commits-or_return, c, count_fetch-Consistent) depth 10

  pub acknowledge_bootstrap-Consistent :
      (node_id token_digest remote_ip nonce_digest : String) (at : ℕ) (passed : Bool)
      → Commits Consistent (
          acknowledge_bootstrap canonical_ip node_id token_digest remote_ip nonce_digest at passed
            db)
  unfolding acknowledge_bootstrap
  acknowledge_bootstrap-Consistent node_id token_digest remote_ip nonce_digest at passed =
      search (commits_rules, Commits-or_return, c, record_installed-Consistent) depth 10
