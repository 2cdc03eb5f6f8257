-- ===== src/Nodes/Invariant/Registration/Uses.antt =====
-- `revoke_node_enrollment` and `consume_node_enrollment` keep the tables consistent.
use hysteria2_panel.Prelude.{
  All-and, Unique-one, update-All-both, row_count-update, row_count-update-le, is_null, is_set,
  All-select, select_holds, row_count-zero, update-Unique, update-All, inl, inr, Bool-cases, ltb,
  ◌∙◌, ap, ℕ, ◌≡◌, refl, String, Bool, true, false, not, ◌&&◌, some, List, arith, Commits,
  commits_rules, select, update, row_count, All, str_eq, str_eq→eq, str_eq_refl,
}
use hysteria2_panel.Nodes.Row.{Node, Enrollment, is_pending_verification}
use hysteria2_panel.Nodes.Database.{Commits-or_return, Database, node_is}
use hysteria2_panel.Nodes.Enrollment.{
  usable, consume_node_enrollment, register, Registration, registered_row, announced_node,
  open_enrollment, enrollment_is, dropped_node, revoke_node_enrollment,
}
use hysteria2_panel.Nodes.Invariant.{IsServing, IsAwaited, IsEnrolled, Sound, Consistent}
use hysteria2_panel.Nodes.Invariant.Rules.{update-Consistent}

-- The node of an unused enrollment has not registered.
unregistered :
    (db : Database) (test : Enrollment → Bool) (e : Enrollment) (x : Node)
    → Consistent db
    → select test db.enrollments ≡ some e
    → is_null e.consumed_at ≡ true
    → select (node_is e.node_id) db.nodes ≡ some x
    → is_pending_verification x.status ≡ false
unregistered db test e x c found unused here =
    let enrolled = All-select (IsEnrolled db.nodes) test db.enrollments e c.enrolled found in
    let none_registered =
      row_count-zero (λ n. n.node_id) (λ n. node_is e.node_id n && is_pending_verification n.status)
        db.nodes (enrolled.unused unused) in
    let this =
      All-select (λ n. (node_is e.node_id n && is_pending_verification n.status) ≡ false)
        (node_is e.node_id) db.nodes x none_registered here in
    ground (arith, this, select_holds (node_is e.node_id) db.nodes x here)

revoked_step :
    (db : Database) (id : String) (at : ℕ) (e : Enrollment)
    → Consistent db
    → select (enrollment_is id) db.enrollments ≡ some e
    → is_set e.consumed_at ≡ false
    → Sound
        (update (node_is e.node_id) dropped_node db.nodes)
        db.commands
        (update (enrollment_is id) (λ x. record x { revoked_at = some at }) db.enrollments)
revoked_step db id at e c found unused =
    let nodes = update (node_is e.node_id) dropped_node db.nodes in
    let dropped =
      update-Consistent db e.node_id (node_is e.node_id) dropped_node (λ x. refl) (λ x t. t)
        (λ x t here s.
          let new = unregistered db (enrollment_is id) e x c found (ground arith) here in
          ground arith)
        (λ x t a. ground arith) (λ x t p. absurd (cc)) c in
    record {
      node_key = dropped.node_key;
      command_key = c.command_key;
      serving = dropped.serving;
      awaited = dropped.awaited;
      enrollment_key =
          update-Unique (λ x. x.node_id) (enrollment_is id) (λ x. record x { revoked_at = some at })
            db.enrollments (λ x. refl) c.enrollment_key;
      enrolled =
          update-All (IsEnrolled nodes) (enrollment_is id) (λ x. record x { revoked_at = some at })
            db.enrollments (λ x t h. record { known = h.known; unused = h.unused })
            dropped.enrolled;
    }

pub revoke_node_enrollment-Consistent :
    (id : String) (at : ℕ) (db : Database)
    → Consistent db
    → Commits Consistent (revoke_node_enrollment id at db)
unfolding revoke_node_enrollment
revoke_node_enrollment-Consistent id at db c = search (commits_rules, c, revoked_step) depth 10

module _ (db : Database) (e : Enrollment) (r : Registration) (at : ℕ) where
  registered_nodes : List Node
  registered_nodes = update (announced_node e.node_id) (registered_row r at) db.nodes

  abbrev consumed : Enrollment → Enrollment
  consumed x = record x { consumed_at = some at }

  known_after :
      (k : String)
      → ltb 0 (row_count (node_is k) db.nodes) ≡ true
      → ltb 0 (row_count (node_is k) registered_nodes) ≡ true
  unfolding registered_nodes
  known_after k h =
      ap (λ n. ltb 0 n)
        (row_count-update (node_is k) (announced_node e.node_id) (registered_row r at) db.nodes
          (λ x t. refl))
      ∙ h

  -- An enrollment that the registration does not use is of another node.
  other-IsEnrolled :
      (y : Enrollment)
      → (is_null e.consumed_at && is_null e.revoked_at) ≡ true
      → (str_eq y.node_id e.node_id ≡ true → y ≡ e)
      → open_enrollment e.enrollment_id y ≡ false
      → IsEnrolled db.nodes y
      → IsEnrolled registered_nodes y
  unfolding registered_nodes
  other-IsEnrolled y is_open one unused h = record {
    known = known_after y.node_id h.known;
    unused = λ w. omega (
      arith,
      h.unused w,
      row_count-update-le (λ n. node_is y.node_id n && is_pending_verification n.status)
          (announced_node e.node_id) (registered_row r at) db.nodes
          (λ x t k. absurd (
            ground (
              arith,
              apart,
              str_eq→eq x.node_id e.node_id,
              str_eq→eq x.node_id y.node_id,
              str_eq_refl y.node_id,
            ))),
    );
  }
    where
      apart : str_eq y.node_id e.node_id ≡ false
      apart = elim (Bool-cases (str_eq y.node_id e.node_id)) [
        | inr f ↦ f
        | inl t ↦
            let same : open_enrollment e.enrollment_id y ≡ open_enrollment e.enrollment_id e =
              ap (λ z. open_enrollment e.enrollment_id z) (one t) in
            absurd (ground (arith, str_eq_refl e.enrollment_id))
      ]

  registered_step :
      (test : Enrollment → Bool)
      → Consistent db
      → select test db.enrollments ≡ some e
      → (is_null e.consumed_at && is_null e.revoked_at) ≡ true
      → Sound registered_nodes db.commands
          (update (open_enrollment e.enrollment_id) consumed db.enrollments)
  unfolding registered_nodes
  registered_step test c found is_open = record {
    node_key =
        update-Unique (λ x. x.node_id) (announced_node e.node_id) (registered_row r at) db.nodes
          (λ x. refl) c.node_key;
    command_key = c.command_key;
    serving =
        update-All IsServing (announced_node e.node_id) (registered_row r at) db.nodes
          (λ x t s. ground arith) c.serving;
    awaited =
        update-All (IsAwaited db.commands) (announced_node e.node_id) (registered_row r at) db.nodes
          (λ x t a. ground arith) c.awaited;
    enrollment_key =
        update-Unique (λ x. x.node_id) (open_enrollment e.enrollment_id) consumed db.enrollments
          (λ x. refl) c.enrollment_key;
    enrolled =
        update-All-both (λ y. IsEnrolled db.nodes y × (str_eq y.node_id e.node_id ≡ true → y ≡ e))
          (IsEnrolled registered_nodes) (open_enrollment e.enrollment_id) consumed db.enrollments
          (λ y t h. record {
            known = known_after y.node_id ((h.0).known);
            unused = λ w. absurd (cc);
          })
          (λ y t h. other-IsEnrolled y is_open (h.1) t (h.0))
          (All-and (λ y h k. (h, k)) db.enrollments c.enrolled one);
  }
    where
      one : All (λ y. str_eq y.node_id e.node_id ≡ true → y ≡ e) db.enrollments
      one =
          All-select (λ r. All (λ y. str_eq y.node_id r.node_id ≡ true → y ≡ r) db.enrollments) test
            db.enrollments e (Unique-one (λ y. y.node_id) db.enrollments c.enrollment_key) found

register-Consistent :
    (e : Enrollment) (r : Registration) (at : ℕ) (test : Enrollment → Bool) (db : Database)
    → Consistent db
    → select test db.enrollments ≡ some e
    → (is_null e.consumed_at && is_null e.revoked_at) ≡ true
    → Commits Consistent (register e r at db)
unfolding registered_nodes
register-Consistent e r at test db c found is_open =
    let step = registered_step db e r at test c found is_open in
    search (commits_rules, c, step) depth 10

usable-open :
    (e : Enrollment) (n : Node) (ip : String) (at : ℕ)
    → not (usable e n ip at) ≡ false
    → is_set e.consumed_at ≡ false
    → (is_null e.consumed_at && is_null e.revoked_at) ≡ true
unfolding usable
usable-open e n ip at h k = ground arith

pub consume_node_enrollment-Consistent :
    (token_digest : String) (r : Registration) (at : ℕ) (db : Database)
    → Consistent db
    → Commits Consistent (consume_node_enrollment token_digest r at db)
unfolding consume_node_enrollment
consume_node_enrollment-Consistent token_digest r at db c =
    search (commits_rules, Commits-or_return, c, register-Consistent, usable-open) depth 14
