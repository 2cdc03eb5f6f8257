-- ===== src/Nodes/Authorization/Capacity.antt =====
-- An authorization does not take an account above its number of devices.
use hysteria2_panel.Prelude.{
  ℕ, ◌+◌, ◌-◌, ◌≤◌, ◌<◌, ◌≡◌, refl, sym, subst, max, String, Bool, true, false, not, ◌&&◌, Option,
  none, some, List, [], ◌∷◌, ◌++◌, ok, inl, inr, arith, maybe, ◌>>=◌, guard-ok, ok-injective,
  select, delete, row_count, row_count-snoc, row_count-delete-le, ltb, ◌==◌, if◌then◌else◌, All,
  All-select, Option-cases, Commits, Commits-ok, Commits-guard, Commits-bind, commits_rules,
  nocase_eq,
}
use hysteria2_panel.Nodes.Row.{NonceRow, AuthDecision, Grant, User, Tier, standard, premium}
use hysteria2_panel.Nodes.Database.{Database, Error}
use hysteria2_panel.Nodes.Nonce.{consume_request_nonce}
use hysteria2_panel.Nodes.Nonce.Writes.{consumed}
use hysteria2_panel.Nodes.Bootstrap.{nonce_row}
use hysteria2_panel.Nodes.Bootstrap.Ack.{canary_user}
use hysteria2_panel.Nodes.Online.{user_type_of}
use hysteria2_panel.Nodes.Authorization.{
  remote_online, reserves, places, token_owner, judge_user, judge, Verdict, repeated, trim,
  decision_collides, with_decision, decide, new_decision, answer, authorize, authorize_node,
  authorize_distributed_node, ready_count, fresh_count,
}

-- The tier whose nodes the account may use
abbrev pub tier_of : User → Tier
tier_of u = if u.user_type == 1 then premium else standard

row_count-trim-le :
    (test : AuthDecision → Bool) (node_id : String) (now : ℕ) (front back : List AuthDecision)
    → row_count test (trim node_id now front back) ≤ row_count test back
unfolding trim row_count
row_count-trim-le test node_id now front [] = omega arith
row_count-trim-le test node_id now front (d ∷ back) =
    ground (arith, row_count-trim-le test node_id now (front ++ d ∷ []) back)

row_count-with_decision-le :
    (test : AuthDecision → Bool) (d : AuthDecision) (now : ℕ) (decisions : List AuthDecision)
    → row_count test (with_decision d now decisions)
      ≤ row_count test decisions + (if test d then 1 else 0)
row_count-with_decision-le test d now decisions =
    let all = decisions ++ d ∷ [] in
    let recent = delete (λ (x : AuthDecision). ltb (x.expires_at + 600) now) all in
    omega (
      arith,
      row_count-trim-le test d.node_id now [] recent,
      row_count-delete-le test (λ (x : AuthDecision). ltb (x.expires_at + 600) now) all,
      row_count-snoc test d decisions,
    )

-- A decision takes at most the place that it reserves.
places-decision :
    (tier : Tier) (local_online : String → ℕ) (name : String) (now : ℕ) (d : AuthDecision)
    (db : Database)
    → places tier local_online name now
        (record db { auth_decisions = with_decision d now db.auth_decisions })
      ≤ places tier local_online name now db + (if reserves name now d then 1 else 0)
unfolding places remote_online
places-decision standard local_online name now d db =
    omega (arith, row_count-with_decision-le (reserves name now) d now db.auth_decisions)
places-decision premium local_online name now d db =
    omega (arith, row_count-with_decision-le (reserves name now) d now db.auth_decisions)

places-nonces :
    (tier : Tier) (local_online : String → ℕ) (name : String) (now : ℕ) (table : List NonceRow)
    (db : Database)
    → places tier local_online name now (record db { request_nonces = table })
      ≡ places tier local_online name now db
unfolding places remote_online
places-nonces standard local_online name now table db = refl
places-nonces premium local_online name now table db = refl

typed_tier : (tier : Tier) (u : User) → (u.user_type == user_type_of tier) ≡ true → tier ≡ tier_of u
typed_tier standard u h = ground arith
typed_tier premium u h = ground arith

module _ (local_online : String → ℕ) (u : User) (now : ℕ) (db : Database)
    (alone : All (λ x. nocase_eq x.name u.name ≡ true → x ≡ u) db.users)
    (no_canary : nocase_eq canary_user u.name ≡ false) where
  abbrev used : Database → ℕ
  used d = places (tier_of u) local_online u.name now d

  -- What the account takes is what it took, or within its limit.
  abbrev Fits : Database → Type 0
  Fits d = used d ≤ max (used db) u.device_limit

  decide-Fits :
      (d : AuthDecision)
      → (reserves u.name now d ≡ true → used db < u.device_limit)
      → Commits Fits (decide d now db)
  unfolding decide
  decide-Fits d room =
      Commits-guard (row_count (decision_collides d) db.auth_decisions == 0) Error.integrity_error _
        (λ _.
          Commits-ok _ (record db { auth_decisions = with_decision d now db.auth_decisions })
            (ground (arith, room, places-decision (tier_of u) local_online u.name now d db)))

  answer-Fits :
      (node_id request_id decision_id : String) (existing : Option AuthDecision)
      (grant : Option Grant) (verdict : Bool × Option String)
      → (existing ≡ none
          → reserves u.name now (new_decision node_id request_id decision_id now grant verdict)
            ≡ true
          → used db < u.device_limit)
      → Commits Fits (answer node_id request_id decision_id now existing grant verdict db)
  answer-Fits node_id request_id decision_id none grant verdict room =
      decide-Fits (new_decision node_id request_id decision_id now grant verdict) (room refl)
  answer-Fits node_id request_id decision_id (some d) grant verdict room =
      Commits-ok (repeated d verdict) db (omega arith)

  -- An account that is let in for the first time had room.
  judge_user-room :
      (node_id request_id decision_id : String) (tier : Tier) (grant : Option Grant) (x : User)
      → (nocase_eq x.name u.name ≡ true → x ≡ u)
      → reserves u.name now (
          new_decision node_id request_id decision_id now grant
            (judge_user local_online node_id tier none now db x))
        ≡ true
      → used db < u.device_limit
  unfolding judge_user
  judge_user-room node_id request_id decision_id tier grant x one h =
      let typed : (x.user_type == user_type_of tier) ≡ true = ground arith in
      let named : nocase_eq x.name u.name ≡ true = ground arith in
      let room : places tier local_online x.name now db < x.device_limit = ground arith in
      let same : x ≡ u = one named in
      let place : tier ≡ tier_of u =
        typed_tier tier u (subst (λ y. (y.user_type == user_type_of tier) ≡ true) same typed) in
      subst (λ t. places t local_online u.name now db < u.device_limit) place
        (subst (λ y. places tier local_online y.name now db < y.device_limit) same room)

  judge-room :
      (node_id request_id decision_id : String) (tier : Tier) (grant : Option Grant)
      (token_fingerprint : String) (freshness : ℕ) (verdict : Bool × Option String)
      → judge local_online node_id tier none token_fingerprint now freshness db ≡ ok verdict
      → reserves u.name now (new_decision node_id request_id decision_id now grant verdict) ≡ true
      → used db < u.device_limit
  unfolding judge
  judge-room node_id request_id decision_id tier grant token_fingerprint freshness verdict e h =
      let owner = select (token_owner token_fingerprint now) db.users in
      let judged = maybe owner (false, none) (judge_user local_online node_id tier none now db) in
      let ready = ready_count tier db in
      let (_, done) =
        guard-ok (not (ready == 0) && fresh_count tier (now - freshness) db == ready)
          Error.integrity_error (ok judged) e in
      let reserved : reserves u.name now
            (new_decision node_id request_id decision_id now grant judged)
          ≡ true =
        subst
          (λ v.
            reserves u.name now (new_decision node_id request_id decision_id now grant v) ≡ true)
          (sym (ok-injective done)) h in
      elim (Option-cases owner) [
        | inl nobody ↦ absurd (ground arith)
        | inr (x, found_it) ↦
            judge_user-room node_id request_id decision_id tier grant x
              (All-select (λ y. nocase_eq y.name u.name ≡ true → y ≡ u)
                (token_owner token_fingerprint now) db.users x alone found_it)
              (subst
                (λ o.
                  reserves u.name now (
                    new_decision node_id request_id decision_id now grant
                      (maybe o (false, none) (judge_user local_online node_id tier none now db)))
                  ≡ true)
                found_it reserved)
      ]

  verdict-room :
      (node_id request_id decision_id : String) (tier : Tier) (existing : Option AuthDecision)
      (grant : Option Grant) (token_fingerprint : String) (freshness : ℕ)
      (verdict : Bool × Option String)
      → maybe grant
          (judge local_online node_id tier existing token_fingerprint now freshness db)
          (λ _. ok (true, some canary_user))
        ≡ ok verdict
      → existing ≡ none
      → reserves u.name now (new_decision node_id request_id decision_id now grant verdict) ≡ true
      → used db < u.device_limit
  verdict-room node_id request_id decision_id tier existing none token_fingerprint freshness verdict
        e first h =
      judge-room node_id request_id decision_id tier none token_fingerprint freshness verdict
        (subst
          (λ o. judge local_online node_id tier o token_fingerprint now freshness db ≡ ok verdict)
          first e)
        h
  verdict-room node_id request_id decision_id tier existing (some g) token_fingerprint freshness
        verdict e first h =
      let canary : (true, some canary_user) ≡ verdict = ok-injective e in
      absurd (
        ground (
          arith,
          subst
              (λ v.
                reserves u.name now (new_decision node_id request_id decision_id now (some g) v)
                ≡ true)
              (sym canary) h,
        ))

  authorize-Fits :
      (sha256 : String → Option String) (fingerprint : String → String)
      (node_id request_id decision_id token : String) (freshness : ℕ) (tier : Tier)
      → Commits Fits (
          authorize sha256 fingerprint local_online node_id request_id decision_id token now
            freshness tier db)
  unfolding authorize
  authorize-Fits sha256 fingerprint node_id request_id decision_id token freshness tier =
      search (commits_rules, answer-Fits, verdict-room) depth 10

  authorize_node-Fits :
      (sha256 : String → Option String) (fingerprint : String → String)
      (node_id request_id decision_id token : String) (freshness : ℕ)
      → Commits Fits (
          authorize_node sha256 fingerprint local_online node_id request_id decision_id token now
            freshness db)
  authorize_node-Fits sha256 fingerprint node_id request_id decision_id token freshness =
      search (commits_rules, authorize-Fits) depth 8

-- Whatever a node asks for, an account takes no more places after the authorization than it took
-- before or than its number of devices, whichever is more: devices online on the nodes of its tier
-- (and, for a standard account, on the panel's server), decisions not yet absorbed by a snapshot, and
-- leases. No other account may have its name, and it may not have that of the bootstrap's canary.
pub authorization_keeps_limit :
    (sha256 : String → Option String) (fingerprint : String → String) (local_online : String → ℕ)
    (node_id request_id decision_id token nonce_digest : String) (now freshness : ℕ) (u : User)
    (db db' : Database) (v : Verdict)
    → All (λ x. nocase_eq x.name u.name ≡ true → x ≡ u) db.users
    → nocase_eq canary_user u.name ≡ false
    → authorize_distributed_node sha256 fingerprint local_online node_id request_id decision_id
        token nonce_digest now freshness db
      ≡ ok (v, db')
    → places (tier_of u) local_online u.name now db'
      ≤ max (places (tier_of u) local_online u.name now db) u.device_limit
unfolding authorize_distributed_node
authorization_keeps_limit sha256 fingerprint local_online node_id request_id decision_id token
      nonce_digest now freshness u db db' v alone no_canary e =
    let row = nonce_row node_id "auth" nonce_digest now in
    let rest = λ (d : Database).
      authorize_node sha256 fingerprint local_online node_id request_id decision_id token now
        freshness d in
    let Within = λ (d : Database).
      places (tier_of u) local_online u.name now d
      ≤ max (places (tier_of u) local_online u.name now db) u.device_limit in
    let passed : (table : List NonceRow)
        → Commits Within (rest (record db { request_nonces = table })) =
      λ table.
        subst
          (λ n.
            Commits
              (λ (x : Database).
                places (tier_of u) local_online u.name now x ≤ max n u.device_limit)
              (rest (record db { request_nonces = table })))
          (places-nonces (tier_of u) local_online u.name now table db)
          (authorize_node-Fits local_online u now (record db { request_nonces = table }) alone
            no_canary sha256 fingerprint node_id request_id decision_id token freshness) in
    let all : Commits Within (consume_request_nonce row db >>= rest) =
      Commits-bind (consume_request_nonce row db) rest (λ d c.
        let (table, same) = consumed row db d c in
        subst (λ x. Commits Within (rest x)) same (passed table)) in
    all.at v db' e
