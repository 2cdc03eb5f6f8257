-- ===== src/Nodes/Authorization.antt =====
-- Whether a node may let a connection in: `authorize_distributed_node` of `class Database` in
-- hysteria2_panel.py, with `_pending_security_kick`. `sha256` is the digest of a token, `none` for one
-- that is not ASCII; `fingerprint` is `_fingerprint`, a keyed digest; `local_online` gives the devices
-- of an account on the panel's own server. A new decision's id is an argument.
pub mod Capacity
pub mod Local
use hysteria2_panel.Prelude.{
  ℕ, ◌+◌, ◌-◌, ◌*◌, min, String, Bool, true, false, not, ◌&&◌, ◌||◌, Option, none, some, List, [],
  ◌∷◌, ◌++◌, Result, ok, guard, maybe, found, ◌>>=◌, ◌>>◌, select, delete, row_count, sum_where,
  ◌==◌, leb, ltb, if◌then◌else◌, is_null, is_set, str_eq, nocase_eq,
}
use hysteria2_panel.Nodes.Row.{
  Node, Grant, Snapshot, OnlineCount, AuthDecision, Lease, User, Tier, standard, premium,
  is_pending_verification, is_ready, is_kick, in_service,
}
use hysteria2_panel.Nodes.Database.{Database, Error, Tx, node_is, unacked, max_state_age}
use hysteria2_panel.Nodes.Nonce.{consume_request_nonce}
use hysteria2_panel.Nodes.Lifecycle.{snapshot_is}
use hysteria2_panel.Nodes.Bootstrap.{open_grant, was_fetched, nonce_row}
use hysteria2_panel.Nodes.Bootstrap.Ack.{canary_user}
use hysteria2_panel.Nodes.Online.{reports, reporting_node, user_type_of}

abbrev pub same_tier : Tier → Tier → Bool
same_tier standard standard = true
same_tier premium premium = true
same_tier _ _ = false

-- A node of the tier whose devices count
abbrev pub counting_node : Tier → Node → Bool
counting_node tier n =
    is_ready n.policy_state
    && is_pending_verification n.status
    && same_tier n.tier tier
    && reports n.lifecycle_state

abbrev pub participant : Tier → Node → Bool
participant tier n = counting_node tier n && is_set n.verified_at

abbrev pub ready_count : Tier → Database → ℕ
ready_count tier db = row_count (participant tier) db.nodes

abbrev pub fresh_from : ℕ → Snapshot → Bool
fresh_from since s =
    leb since s.accepted_at && leb since s.observed_at && leb since s.traffic_acked_at

-- `nodes JOIN node_online_snapshots`
abbrev pub fresh_count : Tier → ℕ → Database → ℕ
fresh_count tier since db =
    sum_where (participant tier)
      (λ n. row_count (λ s. snapshot_is n.node_id s && fresh_from since s) db.snapshots) db.nodes

-- `node_online_counts JOIN nodes`, for one account
unfoldable pub remote_online : Tier → String → Database → ℕ
remote_online tier name db =
    sum_where (λ (c : OnlineCount). nocase_eq c.user_name name)
      (λ c. c.count * row_count (λ n. node_is c.node_id n && counting_node tier n) db.nodes)
      db.online_counts

-- A decision that holds a place for the account until a snapshot absorbs it
abbrev pub reserves : String → ℕ → AuthDecision → Bool
reserves name now d =
    maybe d.user_name false (λ u. nocase_eq u name)
    && d.allowed
    && is_null d.absorbed_at
    && leb now d.expires_at

abbrev pub holds_lease : String → ℕ → Lease → Bool
holds_lease name now l = nocase_eq l.user_name name && leb now l.expires_at

-- The places that an account takes, as the check adds them up
unfoldable pub places : Tier → (String → ℕ) → String → ℕ → Database → ℕ
unfolding remote_online
places standard local_online name now db =
    local_online name
    + remote_online standard name db
    + row_count (reserves name now) db.auth_decisions
    + row_count (holds_lease name now) db.leases
places premium local_online name now db =
    remote_online premium name db + row_count (reserves name now) db.auth_decisions

-- The account of a token that may connect now
abbrev pub token_owner : String → ℕ → User → Bool
token_owner token_fingerprint now u =
    str_eq u.token_fingerprint token_fingerprint
    && u.enabled
    && maybe u.expires_at true (λ t. ltb now t)
    && maybe u.starts_at true (λ t. leb t now)

abbrev pub has_text : String → List String → Bool
has_text s texts = ltb 0 (row_count (λ t. str_eq t s) texts)

unfoldable pub pending_security_kick : String → String → Database → Bool
pending_security_kick node_id name db = ltb 0 (
    row_count
      (λ c.
        unacked node_id c
        && is_kick c.kind
        && is_null c.quota_generations
        && has_text name c.payload)
      db.commands)

-- A retry of a request that was allowed already holds its place.
abbrev pub reserved_retry : Option AuthDecision → String → Bool
reserved_retry existing name =
    maybe existing false (λ d. d.allowed && maybe d.user_name false (λ u. str_eq u name))

abbrev pub has_room : ℕ → ℕ → Bool → Bool
has_room used limit retry = if retry then leb used limit else ltb used limit

-- Whether the account `u` may connect, and its name
unfoldable pub judge_user :
    (String → ℕ) → String → Tier → Option AuthDecision → ℕ → Database → User → Bool × Option String
unfolding places pending_security_kick
judge_user local_online node_id tier existing now db u =
    if not (u.user_type == user_type_of tier) then (false, none) else (
      ltb (u.tx_bytes + u.rx_bytes) u.traffic_limit_bytes
          && has_room (places tier local_online u.name now db) u.device_limit
              (reserved_retry existing u.name)
          && not (pending_security_kick node_id u.name db),
      some u.name,
    )

abbrev pub canary_grant : String → String → ℕ → Grant → Bool
canary_grant node_id digest now g =
    str_eq g.node_id node_id
    && str_eq g.token_digest digest
    && g.automatic_canary
    && open_grant g
    && ltb now g.expires_at
    && was_fetched g

-- The check of a token that is no canary's: it raises where a node of the tier has no fresh snapshot.
unfoldable pub judge :
    (String → ℕ)
    → String
    → Tier
    → Option AuthDecision
    → String
    → ℕ
    → ℕ
    → Database
    → Result Error (Bool × Option String)
unfolding judge_user
judge local_online node_id tier existing token_fingerprint now freshness db = do
  let ready = ready_count tier db
  guard (not (ready == 0) && fresh_count tier (now - freshness) db == ready) Error.integrity_error
  ok (
      maybe (select (token_owner token_fingerprint now) db.users) (false, none)
        (judge_user local_online node_id tier existing now db))

-- What the node is told
pub record Verdict : Type 0 where
  pub allowed : Bool
  pub id : Option String
  pub decision_id : String
  pub expires_at : ℕ

-- The decision of an earlier request, given again if it still stands
unfoldable pub repeated : AuthDecision → Bool × Option String → Verdict
repeated d verdict =
    let still =
      d.allowed
      && verdict.0
      && maybe d.user_name (is_null (verdict.1)) (λ u. maybe (verdict.1) false (λ v. str_eq u v)) in
    record {
      allowed = still;
      id = if still then d.user_name else none;
      decision_id = d.decision_id;
      expires_at = d.expires_at;
    }

-- `ORDER BY created_at DESC, rowid DESC LIMIT 4096` among the decisions of a node; one that has not
-- expired stays in any case.
unfoldable pub trim : String → ℕ → List AuthDecision → List AuthDecision → List AuthDecision
trim node_id now front [] = []
trim node_id now front (d ∷ back) =
    let rest = trim node_id now (front ++ d ∷ []) back in
    let newer =
      row_count (λ (x : AuthDecision). str_eq x.node_id node_id && ltb d.created_at x.created_at)
        front
      + row_count (λ (x : AuthDecision). str_eq x.node_id node_id && leb d.created_at x.created_at)
          back in
    if str_eq d.node_id node_id && leb 4096 newer && ltb d.expires_at now then rest else d ∷ rest

abbrev pub decision_collides : AuthDecision → AuthDecision → Bool
decision_collides d x =
    str_eq x.node_id d.node_id && str_eq x.request_id d.request_id
    || str_eq x.decision_id d.decision_id

abbrev pub with_decision : AuthDecision → ℕ → List AuthDecision → List AuthDecision
with_decision d now decisions =
    trim d.node_id now [] (delete (λ x. ltb (x.expires_at + 600) now) (decisions ++ d ∷ []))

-- A new decision is stored, and the old ones that have expired go.
unfoldable pub decide : AuthDecision → ℕ → Database → Tx Verdict
unfolding trim
decide d now db = do
  guard (row_count (decision_collides d) db.auth_decisions == 0) Error.integrity_error
  ok (
    record {
      allowed = d.allowed;
      id = d.user_name;
      decision_id = d.decision_id;
      expires_at = d.expires_at;
    },
    record db { auth_decisions = with_decision d now db.auth_decisions },
  )

abbrev pub new_decision :
    String → String → String → ℕ → Option Grant → Bool × Option String → AuthDecision
new_decision node_id request_id decision_id now grant verdict = record {
  node_id = node_id;
  request_id = request_id;
  decision_id = decision_id;
  allowed = verdict.0;
  user_name = if verdict.0 then verdict.1 else none;
  created_at = now;
  expires_at = maybe grant (now + max_state_age) (λ g. min (now + max_state_age) g.expires_at);
  absorbed_at = none;
}

abbrev pub answer :
    String
    → String
    → String
    → ℕ
    → Option AuthDecision
    → Option Grant
    → Bool × Option String
    → Database
    → Tx Verdict
answer node_id request_id decision_id now existing grant verdict db =
    maybe existing (decide (new_decision node_id request_id decision_id now grant verdict) now db)
      (λ d. ok (repeated d verdict, db))

abbrev pub earlier_decision : String → String → ℕ → AuthDecision → Bool
earlier_decision node_id request_id now d =
    str_eq d.node_id node_id && str_eq d.request_id request_id && leb now d.expires_at

module _ (sha256 : String → Option String) (fingerprint : String → String)
    (local_online : String → ℕ) where
  -- The decision, after the nonce and the checks of the node
  unfoldable pub authorize :
      String → String → String → String → ℕ → ℕ → Tier → Database → Tx Verdict
  unfolding judge repeated decide
  authorize node_id request_id decision_id token now freshness tier db = do
    digest ← found (sha256 token) Error.integrity_error
    let existing = select (earlier_decision node_id request_id now) db.auth_decisions
    let grant = select (canary_grant node_id digest now) db.grants
    verdict ←
        maybe grant (judge local_online node_id tier existing (fingerprint token) now freshness db)
          (λ _. ok (true, some canary_user))
    answer node_id request_id decision_id now existing grant verdict db

  abbrev pub authorize_node : String → String → String → String → ℕ → ℕ → Database → Tx Verdict
  authorize_node node_id request_id decision_id token now freshness db = do
    n ← found (select (reporting_node node_id) db.nodes) Error.integrity_error
    guard (is_ready n.policy_state && in_service n.lifecycle_state) Error.integrity_error
    authorize node_id request_id decision_id token now freshness n.tier db

  -- The caller answers an error with `None`: nothing was written.
  unfoldable pub authorize_distributed_node :
      String → String → String → String → String → ℕ → ℕ → Database → Tx Verdict
  authorize_distributed_node node_id request_id decision_id token nonce_digest now freshness db = do
    db' ← consume_request_nonce (nonce_row node_id "auth" nonce_digest now) db
    authorize_node node_id request_id decision_id token now freshness db'
