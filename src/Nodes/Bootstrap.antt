-- ===== src/Nodes/Bootstrap.antt =====
-- The one-time grants by which a node fetches its data plane: `create_data_plane_bootstrap_grant`,
-- `fetch_data_plane_bootstrap`, `data_plane_bootstrap_requires_canary` and
-- `acknowledge_data_plane_bootstrap` of `class Database` in hysteria2_panel.py.
-- `canonical_ip` is `str(ipaddress.ip_address(ip))`, and `none` where that raises a ValueError. A new
-- grant's id, `uuid.uuid4().hex`, is an argument.
pub mod Ack
use hysteria2_panel.Prelude.{
  ℕ, ◌+◌, ◌-◌, String, Bool, true, false, not, ◌&&◌, ◌||◌, Option, none, some, List, [], ◌∷◌, ◌++◌,
  Result, ok, err, guard, maybe, ◌>>=◌, ◌>>◌, select, update, row_count, ◌==◌, leb, ltb,
  if◌then◌else◌, is_null, is_set, at_least, str_eq, hex_text, strip,
}
use hysteria2_panel.Nodes.Row.{
  DataPlaneState, not_issued, bootstrap_issued, Node, Grant, NonceRow, is_pending_verification,
  is_ready, is_active,
}
use hysteria2_panel.Nodes.Database.{Database, Error, Tx, or_return, node_is}
use hysteria2_panel.Nodes.Nonce.{consume_request_nonce}
use hysteria2_panel.Nodes.Admission.{actor_ok, enabled_row, one_row, set_nodes}

-- `expected_ip or observed_ip`
unfoldable pub bound_ip_of : Node → Option String
bound_ip_of n =
    maybe n.expected_ip n.observed_ip (λ ip. if str_eq ip "" then n.observed_ip else some ip)

unfoldable pub same_ip : Option String → String → Bool
same_ip bound ip = maybe bound false (λ b. str_eq b ip)

-- Verified, registered and not draining or stopped
abbrev pub in_use : Node → Bool
in_use n = is_pending_verification n.status && is_set n.verified_at && is_active n.lifecycle_state

abbrev pub past_issue : DataPlaneState → Bool
past_issue not_issued = false
past_issue _ = true

abbrev pub nonce_row : String → String → String → ℕ → NonceRow
nonce_row node_id purpose nonce_digest at = record {
  node_id = node_id;
  purpose = purpose;
  nonce_digest = nonce_digest;
  accepted_at = at;
}

-- The node that an automatic grant puts under the protocol
abbrev pub enabling_node : String → ℕ → Node → Bool
enabling_node node_id created_at x =
    node_is node_id x && in_use x && at_least (created_at - 120) x.last_heartbeat_at

-- What an automatic grant writes before the grant: its nonce and the policy of the node
unfoldable pub enable_protocol : String → String → String → ℕ → Database → Result Error Database
enable_protocol node_id actor nonce_digest created_at db = do
  db' ← consume_request_nonce (nonce_row node_id "bootstrap-claim" nonce_digest created_at) db
  guard (one_row (enabling_node node_id created_at) db') Error.integrity_error
  ok (set_nodes (enabling_node node_id created_at) (enabled_row created_at actor) db')

unfoldable pub issue : DataPlaneState → DataPlaneState
issue not_issued = bootstrap_issued
issue bootstrap_issued = bootstrap_issued
issue s = s

abbrev pub open_grant : Grant → Bool
open_grant g = is_null g.acknowledged_at && is_null g.revoked_at

abbrev pub granted_node : String → Node → Bool
granted_node node_id x = node_is node_id x && in_use x && is_ready x.policy_state

abbrev pub issued_row : Node → Node
issued_row x = record x { data_plane_state = issue x.data_plane_state }

-- The grants after `g` was inserted: the older ones of its node are revoked.
abbrev pub with_grant : Grant → List Grant → List Grant
with_grant g grants =
    update (λ x. str_eq x.node_id g.node_id && open_grant x)
      (λ x. record x { revoked_at = some g.created_at }) grants
    ++ g ∷ []

-- `grant_id` is the primary key and `token_digest` is unique.
abbrev pub grant_collides : Grant → Grant → Bool
grant_collides g x = str_eq x.grant_id g.grant_id || str_eq x.token_digest g.token_digest

unfoldable pub insert_grant : Grant → Database → Result Error Database
unfolding issue
insert_grant g db = do
  guard (row_count (grant_collides g) db.grants == 0) Error.integrity_error
  guard (one_row (granted_node g.node_id) db) Error.integrity_error
  ok (record db {
    nodes = update (granted_node g.node_id) issued_row db.nodes;
    grants = with_grant g db.grants;
  })

-- What is written before the grant
unfoldable pub claim : Bool → String → String → String → ℕ → Database → Result Error Database
unfolding enable_protocol
claim auto node_id actor nonce_digest created_at db =
    if auto then enable_protocol node_id actor nonce_digest created_at db else ok db

abbrev pub issue_grant : Grant → String → String → Database → Tx (Option Grant)
issue_grant g actor nonce_digest db = do
  db' ← claim g.automatic_canary g.node_id actor nonce_digest g.created_at db
  db'' ← insert_grant g db'
  ok (some g, db'')

unfoldable pub create_grant :
    (canonical_ip : String → Option String)
    → String
    → String
    → String
    → String
    → String
    → ℕ
    → ℕ
    → Bool
    → String
    → Database
    → Tx (Option Grant)
unfolding actor_ok bound_ip_of same_ip claim insert_grant
create_grant canonical_ip grant_id node_id token_digest bound_ip actor created_at expires_at auto
      nonce_digest db =
    if not (
      hex_text 32 node_id
      && hex_text 64 token_digest
      && actor_ok actor
      && expires_at == created_at + 600
      && (not auto || hex_text 64 nonce_digest))
    then ok (none, db)
    else maybe (canonical_ip bound_ip) (ok (none, db)) λ ip.
      maybe (select (node_is node_id) db.nodes) (ok (none, db)) λ n.
        if not (
          in_use n
          && (if auto
              then at_least (created_at - 120) n.last_heartbeat_at
              else is_ready n.policy_state)
          && same_ip (bound_ip_of n) ip)
        then ok (none, db)
        else or_return none db (
            issue_grant
              record {
                grant_id = grant_id;
                node_id = node_id;
                token_digest = token_digest;
                bound_ip = ip;
                created_by = strip actor;
                created_at = created_at;
                expires_at = expires_at;
                fetch_attempts = 0;
                last_fetched_at = none;
                acknowledged_at = none;
                revoked_at = none;
                automatic_canary = auto;
              }
              (strip actor) nonce_digest db)

-- The node of a grant, as the statements join it
abbrev pub may_fetch : Node → Bool
may_fetch n = in_use n && is_ready n.policy_state && past_issue n.data_plane_state

-- The grant of a node and a token that is open and has not expired
abbrev pub current : String → String → ℕ → Grant → Bool
current node_id token_digest now g =
    str_eq g.node_id node_id
    && str_eq g.token_digest token_digest
    && open_grant g
    && ltb now g.expires_at

abbrev pub grant_is : String → Grant → Bool
grant_is grant_id g = str_eq g.grant_id grant_id

-- The grant that is fetched, as the SELECT finds it
abbrev pub fetchable : String → String → ℕ → Database → Grant → Bool
fetchable node_id token_digest now db g =
    current node_id token_digest now g
    && ltb g.fetch_attempts 3
    && ltb 0 (row_count (λ x. node_is node_id x && may_fetch x) db.nodes)

-- The grant whose fetch is counted, as the UPDATE finds it
abbrev pub counting : String → ℕ → Grant → Bool
counting grant_id now x =
    grant_is grant_id x && open_grant x && ltb now x.expires_at && ltb x.fetch_attempts 3

abbrev pub fetched_row : ℕ → Grant → Grant
fetched_row now x = record x { fetch_attempts = x.fetch_attempts + 1; last_fetched_at = some now }

abbrev pub count_fetch : Grant → String → ℕ → Database → Tx (Option Grant)
count_fetch g nonce_digest now db = do
  db' ← consume_request_nonce (nonce_row g.node_id "data-plane-bootstrap" nonce_digest now) db
  guard (row_count (counting g.grant_id now) db'.grants == 1) Error.integrity_error
  ok (
    some (fetched_row now g),
    record db' { grants = update (counting g.grant_id now) (fetched_row now) db'.grants },
  )

unfoldable pub fetch_bootstrap :
    (canonical_ip : String → Option String)
    → String
    → String
    → String
    → String
    → ℕ
    → Database
    → Tx (Option Grant)
fetch_bootstrap canonical_ip node_id token_digest remote_ip nonce_digest fetched_at db =
    if not (hex_text 32 node_id && hex_text 64 token_digest && hex_text 64 nonce_digest)
    then ok (none, db)
    else maybe (canonical_ip remote_ip) (ok (none, db)) λ ip.
      maybe (select (fetchable node_id token_digest fetched_at db) db.grants) (ok (none, db)) λ g.
        if not (str_eq g.bound_ip ip)
        then ok (none, db)
        else or_return none db (count_fetch g nonce_digest fetched_at db)

-- `fetch_attempts BETWEEN 1 AND 3`
abbrev pub was_fetched : Grant → Bool
was_fetched g = leb 1 g.fetch_attempts && leb g.fetch_attempts 3

unfoldable pub requires_canary :
    (canonical_ip : String → Option String) → String → String → String → ℕ → Database → Bool
requires_canary canonical_ip node_id token_digest remote_ip checked_at db =
    hex_text 32 node_id
    && hex_text 64 token_digest
    && maybe (canonical_ip remote_ip) false λ ip. ltb 0 (
        row_count
          (λ g.
            current node_id token_digest checked_at g
            && str_eq g.bound_ip ip
            && g.automatic_canary
            && was_fetched g)
          db.grants)
