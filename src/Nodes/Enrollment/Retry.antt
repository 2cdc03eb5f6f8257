-- ===== src/Nodes/Enrollment/Retry.antt =====
-- A registration whose answer was lost may be sent again.
use hysteria2_panel.Prelude.{
  ℕ, ◌≡◌, refl, ap, subst, String, Bool, true, not, some, none, ok, List, [], ◌∷◌, arith, inl, inr,
  ◌&&◌, ◌≤◌, ltb, ◌==◌, is_null, maybe, select, update, row_count, str_eq, str_eq→eq, str_eq_refl,
  if◌then◌else◌, Bool-cases, Option-cases, ok-injective, row_count-Unique, row_count-and-le,
}
use hysteria2_panel.Nodes.Row.{Node, Enrollment}
use hysteria2_panel.Nodes.Database.{Database, node_is, or_return}
use hysteria2_panel.Nodes.Invariant.{Consistent}
use hysteria2_panel.Nodes.Enrollment.{
  Registration, usable, same_registration, consume_node_enrollment, register, registered_row,
  announced_node, open_enrollment, column_is, is_unregistered,
}

found_first : {A : Type 0} (y x : A) → some y ≡ some x → y ≡ x
found_first y x e = cc

module _ {A : Type 0} (p test : A → Bool) (change : A → A) where
  -- The row that a SELECT finds after an UPDATE that does not touch what the SELECT compares
  select-update_same :
      (xs : List A) (x : A)
      → ((y : A) → p (change y) ≡ p y)
      → select p xs ≡ some x
      → select p (update test change xs) ≡ some (if test x then change x else x)
  unfolding select update
  select-update_same [] x keeps e = absurd (cc)
  select-update_same (y ∷ xs) x keeps e = elim (Bool-cases (p y)) [
    | inr other ↦ ground (arith, keeps y, select-update_same xs x keeps)
    | inl here ↦
        let first : y ≡ x = found_first y x (rw here at e) in
        subst (λ z. select p (update test change (y ∷ xs)) ≡ some (if test z then change z else z))
          first (ground (arith, keeps y))
  ]

-- The one announced node of an id is the one that a SELECT of the id finds.
announced_row :
    (i : String) (xs : List Node) (n : Node)
    → select (node_is i) xs ≡ some n
    → row_count (node_is i) xs ≤ 1
    → row_count (announced_node i) xs ≡ 1
    → announced_node i n ≡ true
unfolding select row_count
announced_row i [] n e one found = absurd (cc)
announced_row i (y ∷ xs) n e one found = elim (Bool-cases (node_is i y)) [
  | inr other ↦ announced_row i xs n (rw other at e) (ground arith) (ground arith)
  | inl here ↦
      subst (λ z. announced_node i z ≡ true) (found_first y n (rw here at e))
        (ground (arith, row_count-and-le (node_is i) (λ z. is_unregistered z.status) xs))
]

-- The tables after a registration
registered : Enrollment → Registration → ℕ → Database → Database
registered e r at db = record db {
  enrollments =
      update (open_enrollment e.enrollment_id) (λ x. record x { consumed_at = some at })
        db.enrollments;
  nodes = update (announced_node e.node_id) (registered_row r at) db.nodes;
}

register-ok :
    (e : Enrollment) (r : Registration) (at : ℕ) (db d : Database) (id : String)
    → or_return none db (register e r at db) ≡ ok (some id, d)
    → (row_count (announced_node e.node_id) db.nodes ≡ 1)
      × (e.node_id ≡ id)
      × (registered e r at db ≡ d)
unfolding registered
register-ok e r at db d id done =
    let is_open = row_count (open_enrollment e.enrollment_id) db.enrollments == 1 in
    let key_free =
      row_count (λ n. column_is n.public_key r.public_key && not (node_is e.node_id n)) db.nodes
      == 0 in
    let announced = row_count (announced_node e.node_id) db.nodes == 1 in
    elim (Bool-cases is_open) [
      | inr closed ↦ absurd (cc (ok-injective (rw closed at done)))
      | inl t ↦ elim (Bool-cases key_free) [
        | inr taken ↦ absurd (cc (ok-injective (rw (t, taken) at done)))
        | inl k ↦ elim (Bool-cases announced) [
          | inr gone ↦ absurd (cc (ok-injective (rw (t, k, gone) at done)))
          | inl a ↦
              let same = ok-injective (rw (t, k, a) at done) in
              (ground arith, found_first e.node_id id (ap (λ x. x.0) same), ap (λ x. x.1) same)
        ]
      ]
    ]

-- The second registration tells the same of the node as the first.
abbrev pub repeats : Registration → Registration → Bool
repeats r r' =
    str_eq r.public_key r'.public_key
    && str_eq r.observed_ip r'.observed_ip
    && str_eq r.hostname r'.hostname
    && str_eq r.platform r'.platform
    && str_eq r.architecture r'.architecture
    && str_eq r.agent_version r'.agent_version

-- The second answer, from the rows that the registration left
retry_answer :
    (e : Enrollment) (n : Node) (r r' : Registration) (at at' : ℕ)
    → usable e n r.observed_ip at ≡ true
    → (usable e n r'.observed_ip at' && same_registration r' (registered_row r at n))
      ≡ (ltb at' e.expires_at && repeats r r')
unfolding usable same_registration
retry_answer e n r r' at at' h = elim (Bool-cases (str_eq r.observed_ip r'.observed_ip)) [
  | inr other ↦ ground (arith, other)
  | inl same ↦
      let ip = str_eq→eq r.observed_ip r'.observed_ip same in
      let expected = ap (λ x. maybe n.expected_ip true (λ y. str_eq y x)) ip in
      ground (arith, same, expected, h)
]

module _ (token_digest : String) (r r' : Registration) (at at' : ℕ) (e : Enrollment) where
  retry_rows :
      (n : Node) (db : Database)
      → usable e n r.observed_ip at ≡ true
      → select (λ x. str_eq x.token_digest token_digest) db.enrollments
        ≡ some (record e { consumed_at = some at })
      → select (node_is e.node_id) db.nodes ≡ some (registered_row r at n)
      → consume_node_enrollment token_digest r' at' db
        ≡ ok (if ltb at' e.expires_at && repeats r r' then some e.node_id else none, db)
  unfolding consume_node_enrollment usable
  retry_rows n db may_use found here = ground (arith, retry_answer e n r r' at at' may_use)

  first_use :
      (n : Node) (db db' : Database) (id : String)
      → row_count (node_is e.node_id) db.nodes ≤ 1
      → select (λ x. str_eq x.token_digest token_digest) db.enrollments ≡ some e
      → e.consumed_at ≡ none
      → select (node_is e.node_id) db.nodes ≡ some n
      → usable e n r.observed_ip at ≡ true
      → or_return none db (register e r at db) ≡ ok (some id, db')
      → consume_node_enrollment token_digest r' at' db'
        ≡ ok (if ltb at' e.expires_at && repeats r r' then some id else none, db')
  unfolding registered usable
  first_use n db db' id one found fresh here may_use done =
      let (announced, same_id, same) = register-ok e r at db db' id done in
      let row_open : open_enrollment e.enrollment_id e ≡ true =
        ground (arith, str_eq_refl e.enrollment_id, ap is_null fresh, may_use) in
      let enrollment =
        select-update_same (λ x. str_eq x.token_digest token_digest)
          (open_enrollment e.enrollment_id) (λ x. record x { consumed_at = some at }) db.enrollments
          e (λ y. refl) found in
      let node =
        select-update_same (node_is e.node_id) (announced_node e.node_id) (registered_row r at)
          db.nodes n (λ y. refl) here in
      let row_announced = announced_row e.node_id db.nodes n here one announced in
      subst
        (λ d.
          consume_node_enrollment token_digest r' at' d
          ≡ ok (if ltb at' e.expires_at && repeats r r' then some id else none, d))
        same
        (subst
          (λ i.
            consume_node_enrollment token_digest r' at' (registered e r at db)
            ≡ ok (
              if ltb at' e.expires_at && repeats r r' then some i else none,
              registered e r at db,
            ))
          same_id
          (retry_rows n (registered e r at db) may_use (rw row_open at enrollment)
            (rw row_announced at node)))

  -- After a registration by an enrollment that was unused, in consistent tables, the enrollment
  -- answers a second request exactly if that comes before the enrollment expires and tells the same
  -- public key, address, host, platform, architecture and version as the first: then with the same
  -- node, else with nothing. It writes nothing.
  pub used_enrollment_answers :
      (db db' : Database) (id : String)
      → Consistent db
      → select (λ x. str_eq x.token_digest token_digest) db.enrollments ≡ some e
      → e.consumed_at ≡ none
      → consume_node_enrollment token_digest r at db ≡ ok (some id, db')
      → consume_node_enrollment token_digest r' at' db'
        ≡ ok (if ltb at' e.expires_at && repeats r r' then some id else none, db')
  unfolding consume_node_enrollment
  used_enrollment_answers db db' id c found fresh done =
      let one = row_count-Unique (λ (n : Node). n.node_id) e.node_id db.nodes c.node_key in
      elim (Option-cases (select (node_is e.node_id) db.nodes)) [
        | inl gone ↦ absurd (cc (ok-injective (rw (found, gone) at done)))
        | inr (n, here) ↦ elim (Bool-cases (usable e n r.observed_ip at)) [
          | inr refused ↦ absurd (cc (ok-injective (rw (found, here, refused) at done)))
          | inl may_use ↦
              first_use n db db' id one found fresh here may_use
                (rw (found, here, may_use, fresh) at done)
        ]
      ]
