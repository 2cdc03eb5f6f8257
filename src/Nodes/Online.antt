-- ===== src/Nodes/Online.antt =====
-- The online snapshots of a node: `accept_node_online_snapshot` of `class Database` in
-- hysteria2_panel.py. `fingerprint` is `_retired_name_fingerprint`, a keyed digest.
use hysteria2_panel.Prelude.{
  ℕ, ◌-◌, ◌+◌, String, Bool, true, false, not, ◌&&◌, some, List, [], ◌∷◌, ◌++◌, ok, guard, maybe,
  found, ◌>>=◌, ◌>>◌, select, select_all, update, delete, row_count, ◌==◌, leb, ltb, if◌then◌else◌,
  is_null, is_set, str_eq, map,
}
use hysteria2_panel.Nodes.Row.{
  Node, Snapshot, OnlineCount, AuthDecision, NonceRow, User, Tier, standard, premium, Lifecycle,
  active, draining, stopping, disconnecting, is_pending_verification, is_ready,
}
use hysteria2_panel.Nodes.UsageRows.{Checkpoint}
use hysteria2_panel.Nodes.Database.{Database, Error, Tx, node_is, or_return}
use hysteria2_panel.Nodes.Nonce.{consume_request_nonce}
use hysteria2_panel.Nodes.Lifecycle.{snapshot_is, count_is}
use hysteria2_panel.Nodes.Bootstrap.Ack.{canary_user}

-- `lifecycle_state in {"active", "draining", "stopping", "disconnecting"}`
abbrev pub reports : Lifecycle → Bool
reports active = true
reports draining = true
reports stopping = true
reports disconnecting = true
reports _ = false

abbrev pub reporting_node : String → Node → Bool
reporting_node node_id n =
    node_is node_id n && is_pending_verification n.status && is_set n.verified_at

abbrev pub known_name : List User → String → Bool
known_name users name = ltb 0 (row_count (λ (u : User). str_eq u.name name) users)

-- The snapshot without the canary of the bootstrap, where no account has that name
unfoldable pub without_canary : List User → List (String × ℕ) → List (String × ℕ)
without_canary users online =
    if known_name users canary_user
    then online
    else delete (λ (p : String × ℕ). str_eq (p.0) canary_user) online

-- A name that neither an account has nor a deleted account had
unfoldable pub is_stranger : (fingerprint : String → String) → Database → String → Bool
is_stranger fingerprint db name =
    not (known_name db.users name)
    && row_count (λ f. str_eq f (fingerprint name)) db.retired_names == 0

-- `1 if node["tier"] == "premium" else 0`
abbrev pub user_type_of : Tier → ℕ
user_type_of premium = 1
user_type_of standard = 0

abbrev pub allowed_name : Tier → List User → String → Bool
allowed_name tier users name =
    ltb 0 (row_count (λ (u : User). str_eq u.name name && u.user_type == user_type_of tier) users)

-- The counts that are stored
unfoldable pub stored_online : Tier → List User → List (String × ℕ) → List (String × ℕ)
stored_online tier users online =
    select_all (λ (p : String × ℕ). known_name users (p.0) && allowed_name tier users (p.0)) online

count_of : String → List (String × ℕ) → ℕ
count_of name [] = 0
count_of name ((k, n) ∷ rest) = if str_eq k name then n else count_of name rest

previous_counts : String → List OnlineCount → List (String × ℕ)
previous_counts node_id counts =
    map (λ (c : OnlineCount). (c.user_name, c.count)) (select_all (count_is node_id) counts)

-- A decision that no snapshot has absorbed
abbrev pub unabsorbed : String → String → AuthDecision → Bool
unabsorbed node_id name d =
    str_eq d.node_id node_id
    && maybe d.user_name false (λ n. str_eq n name)
    && d.allowed
    && is_null d.absorbed_at

-- `ORDER BY created_at, rowid`: how many rows come before one that stands behind `front`
rank : String → String → AuthDecision → List AuthDecision → List AuthDecision → ℕ
rank node_id name d front back =
    row_count (λ (x : AuthDecision). unabsorbed node_id name x && leb x.created_at d.created_at)
      front
    + row_count (λ (x : AuthDecision). unabsorbed node_id name x && ltb x.created_at d.created_at)
        back

absorb_from : String → String → ℕ → ℕ → List AuthDecision → List AuthDecision → List AuthDecision
absorb_from node_id name limit at front [] = []
absorb_from node_id name limit at front (d ∷ back) =
    let rest = absorb_from node_id name limit at (front ++ d ∷ []) back in
    (if unabsorbed node_id name d && ltb (rank node_id name d front back) limit
      then record d { absorbed_at = some at }
      else d)
    ∷ rest

-- The oldest `limit` decisions of the name are absorbed.
unfoldable pub absorb : String → String → ℕ → ℕ → List AuthDecision → List AuthDecision
unfolding rank absorb_from
absorb node_id name limit at decisions = absorb_from node_id name limit at [] decisions

-- Each name absorbs as many decisions as its count has grown by.
unfoldable pub absorb_all :
    String → ℕ → List (String × ℕ) → List (String × ℕ) → List AuthDecision → List AuthDecision
unfolding count_of
absorb_all node_id at previous [] decisions = decisions
absorb_all node_id at previous ((name, n) ∷ online) decisions =
    absorb_all node_id at previous online
      (absorb node_id name (n - count_of name previous) at decisions)

abbrev pub snapshot_row : ℕ → ℕ → Node → Node
snapshot_row at acked n = record n { last_snapshot_at = some at; last_traffic_ack_at = some acked }

-- `WHERE node_id = ?` on `node_usage_checkpoints`
abbrev pub checkpoint_is : String → Checkpoint → Bool
checkpoint_is node_id c = str_eq c.node_id node_id

-- The writes of an accepted snapshot
unfoldable pub store_snapshot : Snapshot → List (String × ℕ) → Database → Database
unfolding previous_counts absorb_all
store_snapshot s online db = record db {
  snapshots = delete (snapshot_is s.node_id) db.snapshots ++ s ∷ [];
  online_counts =
      delete (count_is s.node_id) db.online_counts
      ++ map (λ (p : String × ℕ). record { node_id = s.node_id; user_name = p.0; count = p.1 })
          online;
  auth_decisions =
      absorb_all s.node_id s.accepted_at (previous_counts s.node_id db.online_counts) online
        db.auth_decisions;
  checkpoints =
      update (checkpoint_is s.node_id) (λ c. record c { online_sequence = some s.sequence })
        db.checkpoints;
  nodes = update (node_is s.node_id) (snapshot_row s.accepted_at s.traffic_acked_at) db.nodes;
}

-- The checks and the writes of a snapshot, after its nonce
unfoldable pub take_snapshot :
    (fingerprint : String → String) → Snapshot → List (String × ℕ) → Database → Tx Bool
unfolding without_canary is_stranger stored_online store_snapshot
take_snapshot fingerprint s online db = do
  n ← found (select (reporting_node s.node_id) db.nodes) Error.integrity_error
  guard (is_ready n.policy_state && reports n.lifecycle_state) Error.integrity_error
  guard
      (maybe (select (snapshot_is s.node_id) db.snapshots) true
        (λ old. ltb old.sequence s.sequence))
      Error.integrity_error
  let named = without_canary db.users online
  guard (row_count (λ (p : String × ℕ). is_stranger fingerprint db (p.0)) named == 0)
      Error.integrity_error
  ok (true, store_snapshot s (stored_online n.tier db.users named) db)

abbrev pub online_nonce : Snapshot → String → NonceRow
online_nonce s nonce_digest = record {
  node_id = s.node_id;
  purpose = "online";
  nonce_digest = nonce_digest;
  accepted_at = s.accepted_at;
}

abbrev pub snapshot_tx :
    (fingerprint : String → String) → Snapshot → List (String × ℕ) → String → Database → Tx Bool
snapshot_tx fingerprint s online nonce_digest db =
    consume_request_nonce (online_nonce s nonce_digest) db >>= take_snapshot fingerprint s online

unfoldable pub accept_node_online_snapshot :
    (fingerprint : String → String) → Snapshot → List (String × ℕ) → String → Database → Tx Bool
accept_node_online_snapshot fingerprint s online nonce_digest db =
    or_return false db (snapshot_tx fingerprint s online nonce_digest db)
