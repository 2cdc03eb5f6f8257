-- ===== src/Nodes/Invariant/Registration.antt =====
-- The transactions of `Nodes.Enrollment` and `Nodes.Online` keep the tables consistent.
pub mod Uses
use hysteria2_panel.Prelude.{
  inl, inr, Bool-cases, subst, ltb, ◌∙◌, ◌==◌, if◌then◌else◌, row_count-snoc, row_count-and-le,
  All-snoc, All-map, snoc-Unique, ap, ℕ, ◌≡◌, refl, String, Bool, true, false, ◌&&◌, Option, List,
  [], ◌∷◌, ◌++◌, arith, Commits, commits_rules, row_count, All, str_eq, str_eq→eq, str_eq_refl,
}
use hysteria2_panel.Nodes.Row.{Node, Profile, Tier, Enrollment, Snapshot, is_pending_verification}
use hysteria2_panel.Nodes.Database.{Commits-or_return, Database, node_is}
use hysteria2_panel.Nodes.Online.{
  snapshot_row, store_snapshot, take_snapshot, online_nonce, snapshot_tx,
  accept_node_online_snapshot,
}
use hysteria2_panel.Nodes.Enrollment.Announcement.{new_node, announce, create_node_enrollment}
use hysteria2_panel.Nodes.Invariant.{IsServing, IsAwaited, IsEnrolled, Sound, Consistent}
use hysteria2_panel.Nodes.Invariant.Rules.{update-Consistent}
use hysteria2_panel.Nodes.Invariant.Bootstrap.{after_consume}

snapshot_step :
    (s : Snapshot) (online : List (String × ℕ)) (db : Database)
    → Consistent db
    → Consistent (store_snapshot s online db)
unfolding store_snapshot
snapshot_step s online db c =
    update-Consistent db s.node_id (node_is s.node_id)
      (snapshot_row s.accepted_at s.traffic_acked_at) (λ x. refl) (λ x t. t)
      (λ x t e h. ground arith) (λ x t a. ground arith) (λ x t p. ground arith) c

take_snapshot-Consistent :
    (fingerprint : String → String) (s : Snapshot) (online : List (String × ℕ)) (db : Database)
    → Consistent db
    → Commits Consistent (take_snapshot fingerprint s online db)
unfolding take_snapshot
take_snapshot-Consistent fingerprint s online db c =
    search (commits_rules, c, snapshot_step) depth 14

pub accept_node_online_snapshot-Consistent :
    (fingerprint : String → String) (s : Snapshot) (online : List (String × ℕ))
    (nonce_digest : String) (db : Database)
    → Consistent db
    → Commits Consistent (accept_node_online_snapshot fingerprint s online nonce_digest db)
unfolding accept_node_online_snapshot
accept_node_online_snapshot-Consistent fingerprint s online nonce_digest db c =
    Commits-or_return false db (snapshot_tx fingerprint s online nonce_digest db) c (
      after_consume (online_nonce s nonce_digest) db (take_snapshot fingerprint s online) c
        (take_snapshot-Consistent fingerprint s online))

-- No enrollment names a node that does not exist.
unknown_node :
    (nodes : List Node) (k : String) (enrollments : List Enrollment)
    → All (IsEnrolled nodes) enrollments
    → row_count (node_is k) nodes ≡ 0
    → row_count (λ (e : Enrollment). str_eq e.node_id k) enrollments ≡ 0
unfolding row_count
unknown_node nodes k [] h fresh = refl
unknown_node nodes k (e ∷ es) (p, h) fresh =
    let rest = unknown_node nodes k es h fresh in
    elim (Bool-cases (str_eq e.node_id k)) [
      | inr other ↦ ground arith
      | inl same ↦
          let known =
            subst (λ i. ltb 0 (row_count (node_is i) nodes) ≡ true) (str_eq→eq e.node_id k same)
              p.known in
          absurd (ground arith)
    ]

module _ (nodes : List Node) (n : Node) (fresh : row_count (node_is n.node_id) nodes ≡ 0) where
  still-IsEnrolled :
      (e : Enrollment)
      → is_pending_verification n.status ≡ false
      → IsEnrolled nodes e
      → IsEnrolled (nodes ++ n ∷ []) e
  still-IsEnrolled e new h = record {
    known = ground (arith, h.known, row_count-snoc (node_is e.node_id) n nodes);
    unused = λ w. ground (
      arith,
      h.unused w,
      row_count-snoc (λ x. node_is e.node_id x && is_pending_verification x.status) n nodes,
    );
  }

  newly-IsEnrolled :
      (e : Enrollment)
      → is_pending_verification n.status ≡ false
      → e.node_id ≡ n.node_id
      → IsEnrolled (nodes ++ n ∷ []) e
  newly-IsEnrolled e new same =
      let here : str_eq n.node_id e.node_id ≡ true =
        ap (λ i. str_eq n.node_id i) same ∙ str_eq_refl n.node_id in
      let fresh_here : row_count (node_is e.node_id) nodes ≡ 0 =
        ap (λ i. row_count (node_is i) nodes) same ∙ fresh in
      record {
        known = ground (arith, row_count-snoc (node_is e.node_id) n nodes);
        unused = λ w. ground (
          arith,
          row_count-snoc (λ x. node_is e.node_id x && is_pending_verification x.status) n nodes,
          row_count-and-le (node_is e.node_id) (λ x. is_pending_verification x.status) nodes,
        );
      }

announced_step :
    (db : Database) (n : Node) (e : Enrollment)
    → row_count (node_is n.node_id) db.nodes ≡ 0
    → IsServing n
    → IsAwaited db.commands n
    → is_pending_verification n.status ≡ false
    → e.node_id ≡ n.node_id
    → Consistent db
    → Sound (db.nodes ++ n ∷ []) db.commands (db.enrollments ++ e ∷ [])
announced_step db n e fresh serving awaited new same c = record {
  node_key = snoc-Unique (λ x. x.node_id) n db.nodes fresh c.node_key;
  command_key = c.command_key;
  serving = All-snoc IsServing db.nodes n c.serving serving;
  awaited = All-snoc (IsAwaited db.commands) db.nodes n c.awaited awaited;
  enrollment_key =
      snoc-Unique (λ x. x.node_id) e db.enrollments
        (unknown_node db.nodes e.node_id db.enrollments c.enrolled
          (ap (λ i. row_count (node_is i) db.nodes) same ∙ fresh))
        c.enrollment_key;
  enrolled =
      All-snoc (IsEnrolled (db.nodes ++ n ∷ [])) db.enrollments e
        (All-map (λ x h. still-IsEnrolled db.nodes n fresh x new h) db.enrollments c.enrolled)
        (newly-IsEnrolled db.nodes n fresh e new same);
}

announce-Consistent :
    (n : Node) (p : Profile) (e : Enrollment) (db : Database)
    → IsServing n
    → IsAwaited db.commands n
    → is_pending_verification n.status ≡ false
    → e.node_id ≡ n.node_id
    → Consistent db
    → Commits Consistent (announce n p e db)
announce-Consistent n p e db serving awaited new same c =
    let step = λ (fresh : (row_count (node_is n.node_id) db.nodes == 0) ≡ true).
      announced_step db n e (ground arith) serving awaited new same c in
    search (commits_rules, step) depth 12

pub create_node_enrollment-Consistent :
    (node_id enrollment_id name : String) (expected_ip : Option String)
    (actor token_digest : String) (at expires : ℕ) (tier : Tier) (region host : String) (port : ℕ)
    (hopping : Bool) (db : Database)
    → Consistent db
    → Commits Consistent (
        create_node_enrollment node_id enrollment_id name expected_ip actor token_digest at expires
          tier region host port hopping db)
unfolding create_node_enrollment
create_node_enrollment-Consistent node_id enrollment_id name expected_ip actor token_digest at
      expires tier region host port hopping db c =
    let shown = if hopping then 443 else port in
    let n = new_node node_id name expected_ip at tier region host shown port hopping in
    let serving : IsServing n = record { ready = λ w. absurd (cc); admitted = λ w. absurd (cc) } in
    let awaited : IsAwaited db.commands n = record {
      stop = λ w. absurd (cc);
      start = λ w. absurd (cc);
      uninstall = λ w. absurd (cc);
    } in
    let announced = λ (p : Profile) (e : Enrollment) (same : e.node_id ≡ node_id).
      announce-Consistent n p e db serving awaited refl same c in
    search (commits_rules, announced) depth 12
