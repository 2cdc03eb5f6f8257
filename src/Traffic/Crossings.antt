-- ===== src/Traffic/Crossings.antt =====
-- An account that passes its limit by a batch of the panel's servers is kicked from every node.
pub mod Listed
use hysteria2_panel.Prelude.{
  ℕ, ◌≤◌, ◌≡◌, refl, sym, ◌∙◌, ap, subst, String, true, false, some, List, [], ◌∷◌, inl, inr, arith,
  ok, Commits, Commits-then, bind-ok, ok-injective, select, select_holds, row_count, All, All-map,
  All-select, ltb, Bool-cases,
}
use hysteria2_panel.Nodes.Row.{User, Node, Command}
use hysteria2_panel.Nodes.Database.{Database, insert_command}
use hysteria2_panel.Nodes.Kicks.{contains, distinct, sorted_by, chunks_from, queue_kick_users}
use hysteria2_panel.Nodes.Kicks.Reach.{
  awaits_kick, takes_kick, insert-keeps_kick, contains-sorted_by, queue_kick_users-keeps,
  queue_kick_users-reaches,
}
use hysteria2_panel.Nodes.Kicks.Reach.Names.{has_name, chunks-contains, distinct-contains}
use hysteria2_panel.Nodes.Invariant.Rules.{insert_command-eq}
use hysteria2_panel.Users.{user_is}
use hysteria2_panel.Users.Limits.{exhausted}
use hysteria2_panel.Traffic.Keeps.{count_entries-keeps, kick_groups-keeps, kick_exhausted-keeps}
use hysteria2_panel.Traffic.Replays.{apply_batch-checked}
use hysteria2_panel.Traffic.Batches.{
  after_reset, apply_new_batch, remember_batch, apply_traffic_batch, batch_is, kick_groups,
  kick_exhausted, Traffic, Source, Times, count_entries,
}
use hysteria2_panel.Traffic.Crossings.Listed.{
  NamesDiffer, only_row, IsListed, count_entries-IsListed,
}

-- The nodes that the accounting leaves as they are
HasNodes : List Node → Database → Type 0
HasNodes nodes d = d.nodes ≡ nodes

HasNodes-insert :
    (nodes : List Node) (c : Command) (d d' : Database)
    → insert_command c d ≡ ok d'
    → HasNodes nodes d
    → HasNodes nodes d'
unfolding HasNodes
HasNodes-insert nodes c d d' e h = subst (λ x. x.nodes ≡ nodes) (insert_command-eq c d d' e).1 h

module _ (casefold : String → String) (fresh_id : ℕ → String) (k name : String) (nodes : List Node)
    (target : ltb 0 (row_count (takes_kick k) nodes) ≡ true) where
  IsKicked : Database → Type 0
  IsKicked d = awaits_kick k name d ≡ true

  IsKicked-insert :
      (c : Command) (d d' : Database) → insert_command c d ≡ ok d' → IsKicked d → IsKicked d'
  unfolding IsKicked
  IsKicked-insert c d d' e h = insert-keeps_kick k name c d d' e h

  kick_groups-reaches :
      (groups : List (List String)) (now n : ℕ) (db : Database)
      → HasNodes nodes db
      → has_name name groups ≡ true
      → Commits IsKicked (kick_groups casefold fresh_id groups now n db)
  unfolding kick_groups has_name HasNodes IsKicked
  kick_groups-reaches [] now n db same h = absurd (cc)
  kick_groups-reaches (names ∷ groups) now n db same h = elim (Bool-cases (contains name names)) [
    | inl here ↦
        Commits-then (queue_kick_users casefold fresh_id names now true n db)
          (λ p. kick_groups casefold fresh_id groups now (p.0) (p.1))
          (queue_kick_users-reaches casefold fresh_id now true n db k name names here
            (ap (λ rows. ltb 0 (row_count (takes_kick k) rows)) same ∙ target))
          (λ m d e kicked.
            kick_groups-keeps IsKicked-insert casefold fresh_id groups now m d kicked)
    | inr there ↦
        Commits-then (queue_kick_users casefold fresh_id names now true n db)
          (λ p. kick_groups casefold fresh_id groups now (p.0) (p.1))
          (queue_kick_users-keeps casefold fresh_id now true n db (HasNodes-insert nodes) names
            same)
          (λ m d e same'. kick_groups-reaches groups now m d same' (ground arith))
  ]

  kick_exhausted-reaches :
      (names : List String) (now : ℕ) (db : Database)
      → HasNodes nodes db
      → contains name names ≡ true
      → Commits IsKicked (kick_exhausted casefold fresh_id names now db)
  unfolding kick_exhausted contains
  kick_exhausted-reaches [] now db same h = absurd (cc)
  kick_exhausted-reaches (x ∷ xs) now db same h =
      kick_groups-reaches (chunks_from 999 999 (x ∷ []) xs) now 0 db same
        (chunks-contains name 999 999 (x ∷ []) xs (ground arith))

HasUsers : List User → Database → Type 0
HasUsers users d = d.users ≡ users

HasUsers-insert :
    (users : List User) (c : Command) (d d' : Database)
    → insert_command c d ≡ ok d'
    → HasUsers users d
    → HasUsers users d'
unfolding HasUsers
HasUsers-insert users c d d' e h = subst (λ x. x.users ≡ users) (insert_command-eq c d d' e).1 h

-- Before the batch no account has used up its limit and is not among the exhausted ones.
start-IsListed :
    (id : ℕ) (users : List User) (u : User)
    → row_count (user_is id) users ≤ 1
    → select (user_is id) users ≡ some u
    → exhausted u ≡ false
    → All (IsListed id []) users
unfolding IsListed
start-IsListed id users u one e under =
    All-map (λ y same t over. absurd (ground (arith, ap exhausted (same t)))) users
      (only_row (user_is id) users u one e)

module _ (casefold : String → String) (fresh_id : ℕ → String) where
  apply_new_batch-kicks :
      (batch_id : String) (traffic : Traffic) (s : Source) (t : Times) (db db' : Database) (id : ℕ)
      (v : User) (k : String)
      → NamesDiffer db.users
      → All (IsListed id []) db.users
      → ltb 0 (row_count (takes_kick k) db.nodes) ≡ true
      → apply_new_batch casefold fresh_id batch_id traffic s t db ≡ ok (true, db')
      → select (user_is id) db'.users ≡ some v
      → exhausted v ≡ true
      → awaits_kick k v.name db' ≡ true
  unfolding apply_new_batch HasNodes HasUsers IsListed IsKicked
  apply_new_batch-kicks batch_id traffic s t db db' id v k differ start target applied f over =
      let kicks = λ (p : List String × Database).
        kick_exhausted casefold fresh_id (sorted_by (λ n. n) (distinct (p.0))) t.now (p.1) in
      let finish = λ (q : ℕ × Database). record (q.1) {
        applied_batches = remember_batch batch_id t.now (q.1).applied_batches;
      } in
      let (p, counted, rest) = bind-ok (count_entries s t traffic [] db) _ applied in
      let (q, kicked, done) = bind-ok (kicks p) (λ q. ok (true, finish q)) rest in
      let left : finish q ≡ db' = ap (λ r. r.1) (ok-injective done) in
      let same_nodes : (p.1).nodes ≡ db.nodes =
        (count_entries-keeps {P = HasNodes db.nodes} (λ _ _ _ _ _ _ _ h. h) s t traffic [] db
            refl).at
          (p.0) (p.1) counted in
      let same_users : (q.1).users ≡ (p.1).users =
        (kick_exhausted-keeps (HasUsers-insert (p.1).users) casefold fresh_id
            (sorted_by (λ n. n) (distinct (p.0))) t.now (p.1) refl).at
          (q.0) (q.1) kicked in
      let listed = count_entries-IsListed id s t traffic [] (p.0) db (p.1) differ start counted in
      let found : select (user_is id) (p.1).users ≡ some v =
        sym (ap (select (user_is id)) (sym (ap (λ (d : Database). d.users) left) ∙ same_users))
        ∙ f in
      let named =
        All-select (IsListed id (p.0)) (user_is id) (p.1).users v listed found
          (select_holds (user_is id) (p.1).users v found) over in
      subst (λ d. awaits_kick k v.name d ≡ true) left
        ((kick_exhausted-reaches casefold fresh_id k v.name db.nodes target
            (sorted_by (λ n. n) (distinct (p.0))) t.now (p.1) same_nodes
            (contains-sorted_by (λ n. n) v.name (distinct (p.0))
              ∙ distinct-contains v.name (p.0) named)).at
          (q.0) (q.1) kicked)

  -- When a batch was applied by which an account reached its limit that it had not reached before,
  -- every node that takes commands has a kick of the account that it has not acknowledged. The tables
  -- before are those after the reset of a month, if the call asks for one; ids and, without case,
  -- names are unique.
  pub crossing_is_kicked :
      (batch_id : String) (traffic : Traffic) (s : Source) (t : Times) (db db' : Database)
      (u v : User) (k : String)
      → NamesDiffer (after_reset t.accounting_at db).users
      → row_count (user_is u.id) (after_reset t.accounting_at db).users ≤ 1
      → select (user_is u.id) (after_reset t.accounting_at db).users ≡ some u
      → exhausted u ≡ false
      → ltb 0 (row_count (takes_kick k) (after_reset t.accounting_at db).nodes) ≡ true
      → apply_traffic_batch casefold fresh_id batch_id traffic s t db ≡ ok (true, db')
      → select (user_is u.id) db'.users ≡ some v
      → exhausted v ≡ true
      → awaits_kick k v.name db' ≡ true
  crossing_is_kicked batch_id traffic s t db db' u v k differ one e under target applied f over =
      let start = start-IsListed u.id (after_reset t.accounting_at db).users u one e under in
      let once = apply_batch-checked casefold fresh_id batch_id traffic s t db db' true applied in
      let old =
        ltb 0 (row_count (batch_is batch_id) (after_reset t.accounting_at db).applied_batches) in
      elim (Bool-cases old) [
        | inl again ↦ absurd (cc (ap (λ r. r.0) (ok-injective (rw again at once))))
        | inr new ↦
            apply_new_batch-kicks batch_id traffic s t (after_reset t.accounting_at db) db' u.id v k
              differ start target (rw new at once) f over
      ]
