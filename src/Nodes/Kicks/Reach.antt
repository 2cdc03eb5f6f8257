-- ===== src/Nodes/Kicks/Reach.antt =====
-- What a queued kick reaches: every named account on every node that takes commands. The queue only
-- adds commands, so it keeps the tables consistent.
pub mod Names
use hysteria2_panel.Prelude.{
  ℕ, suc, ◌≡◌, sym, ◌∙◌, ap, subst, String, Bool, true, ◌&&◌, Option, List, [], ◌∷◌, inl, inr,
  arith, ok, ◌>>=◌, Commits, Commits-ok, Commits-guard, Commits-if, Commits-bind, select_all,
  row_count, row_count-snoc, ltb, Bool-cases, &&→both, str_eq, str_eq→eq, str_eq_refl,
}
use hysteria2_panel.Nodes.Row.{Node, Command, is_kick}
use hysteria2_panel.Nodes.Database.{Database, unacked, node_is, insert_command}
use hysteria2_panel.Nodes.Invariant.{Consistent}
use hysteria2_panel.Nodes.Invariant.Rules.{insert_command-eq, insert_command-Consistent}
use hysteria2_panel.Nodes.Kicks.{
  contains, distinct, sorted_by, same_names, same_kick, quota_of, kick_command, kick_target,
  kick_chunks, kick_nodes, kick_order, kick_sorted, queue_kick_users,
}
use hysteria2_panel.Nodes.Kicks.Reach.Names.{
  has_name, chunks-contains, distinct-contains, row_count-sorted_by, contains-row_count,
  row_count-select_all,
}

-- The node has a kick of the account that it has not acknowledged.
abbrev pub kicks : String → String → Command → Bool
kicks node_id name c = unacked node_id c && is_kick c.kind && contains name c.payload

abbrev pub awaits_kick : String → String → Database → Bool
awaits_kick node_id name db = ltb 0 (row_count (kicks node_id name) db.commands)

pub insert-keeps_kick :
    (node_id name : String) (c : Command) (db db' : Database)
    → insert_command c db ≡ ok db'
    → awaits_kick node_id name db ≡ true
    → awaits_kick node_id name db' ≡ true
insert-keeps_kick node_id name c db db' e h =
    subst (λ d. awaits_kick node_id name d ≡ true) (insert_command-eq c db db' e).1
      (ground (arith, row_count-snoc (kicks node_id name) c db.commands))

insert-adds_kick :
    (node_id name : String) (c : Command) (db db' : Database)
    → insert_command c db ≡ ok db'
    → kicks node_id name c ≡ true
    → awaits_kick node_id name db' ≡ true
insert-adds_kick node_id name c db db' e h =
    subst (λ d. awaits_kick node_id name d ≡ true) (insert_command-eq c db db' e).1
      (ground (arith, row_count-snoc (kicks node_id name) c db.commands))

same_names→contains :
    (name : String) (xs ys : List String)
    → same_names xs ys ≡ true
    → contains name ys ≡ true
    → contains name xs ≡ true
unfolding same_names contains
same_names→contains name [] [] h k = k
same_names→contains name [] (y ∷ ys) h k = absurd (cc)
same_names→contains name (x ∷ xs) [] h k = absurd (cc)
same_names→contains name (x ∷ xs) (y ∷ ys) h k =
    let (same, rest) = &&→both (str_eq x y) (same_names xs ys) h in
    let equal : str_eq x name ≡ str_eq y name = ap (λ z. str_eq z name) (str_eq→eq x y same) in
    ground (arith, same_names→contains name xs ys rest)

-- A pending command with the same payload kicks the same accounts.
same_kick-kicks :
    (node_id name : String) (chunk : List String) (quota : Option (List (String × ℕ)))
    (commands : List Command)
    → contains name chunk ≡ true
    → ltb 0 (row_count (same_kick node_id chunk quota) commands) ≡ true
    → ltb 0 (row_count (kicks node_id name) commands) ≡ true
unfolding row_count same_kick
same_kick-kicks node_id name chunk quota [] h k = k
same_kick-kicks node_id name chunk quota (c ∷ commands) h k = ground (
  arith,
  same_names→contains name c.payload chunk,
  same_kick-kicks node_id name chunk quota commands h,
)

module _ (fresh_id : ℕ → String) (quota_only : Bool) (at : ℕ) where
  -- One turn of the loop: the kick is pending already, or it is inserted.
  kick_chunks-turn {κ} :
      {P : Database → Type κ} (chunk : List String) (chunks : List (List String)) (node_id : String)
      (n : ℕ) (db : Database)
      → (ltb 0
              (row_count (same_kick node_id chunk (quota_of quota_only db.users chunk)) db.commands)
            ≡ true
          → Commits P (kick_chunks fresh_id quota_only at chunks node_id n db))
      → ((d : Database)
          → insert_command
              (kick_command (fresh_id n) node_id chunk (quota_of quota_only db.users chunk) at)
              db
            ≡ ok d
          → Commits P (kick_chunks fresh_id quota_only at chunks node_id (suc n) d))
      → Commits P (kick_chunks fresh_id quota_only at (chunk ∷ chunks) node_id n db)
  unfolding kick_chunks
  kick_chunks-turn chunk chunks node_id n db old new =
      let quota = quota_of quota_only db.users chunk in
      let insert = insert_command (kick_command (fresh_id n) node_id chunk quota at) db in
      let rest = λ (d : Database). kick_chunks fresh_id quota_only at chunks node_id (suc n) d in
      Commits-if (ltb 0 (row_count (same_kick node_id chunk quota) db.commands))
        (kick_chunks fresh_id quota_only at chunks node_id n db) (insert >>= rest) old
        (λ _. Commits-bind insert rest new)

  -- What an inserted command keeps, the loops keep.
  module _ {κ} {P : Database → Type κ}
      (keep : (c : Command) (d d' : Database) → insert_command c d ≡ ok d' → P d → P d') where
    kick_chunks-keeps :
        (chunks : List (List String)) (node_id : String) (n : ℕ) (db : Database)
        → P db
        → Commits P (kick_chunks fresh_id quota_only at chunks node_id n db)
    unfolding kick_chunks
    kick_chunks-keeps [] node_id n db h = Commits-ok n db h
    kick_chunks-keeps (chunk ∷ chunks) node_id n db h =
        kick_chunks-turn chunk chunks node_id n db (λ _. kick_chunks-keeps chunks node_id n db h)
          (λ d e. kick_chunks-keeps chunks node_id (suc n) d (keep _ db d e h))

    kick_nodes-keeps :
        (chunks : List (List String)) (nodes : List Node) (n : ℕ) (db : Database)
        → P db
        → Commits P (kick_nodes fresh_id quota_only at chunks nodes n db)
    unfolding kick_nodes
    kick_nodes-keeps chunks [] n db h = Commits-ok n db h
    kick_nodes-keeps chunks (x ∷ nodes) n db h = Commits-bind _ _ (λ (p : ℕ × Database) e.
        kick_nodes-keeps chunks nodes (p.0) (p.1)
          ((kick_chunks-keeps chunks x.node_id n db h).at (p.0) (p.1) e))

  module _ (k name : String) where
    Kicked : Database → Type 0
    Kicked db = awaits_kick k name db ≡ true

    Kicked-insert :
        (c : Command) (d d' : Database) → insert_command c d ≡ ok d' → Kicked d → Kicked d'
    unfolding Kicked
    Kicked-insert c d d' e h = insert-keeps_kick k name c d d' e h

    kick_chunks-kicks :
        (chunks : List (List String)) (n : ℕ) (db : Database)
        → has_name name chunks ≡ true
        → Commits Kicked (kick_chunks fresh_id quota_only at chunks k n db)
    unfolding kick_chunks Kicked has_name
    kick_chunks-kicks [] n db h = absurd (cc)
    kick_chunks-kicks (chunk ∷ chunks) n db h = elim (Bool-cases (contains name chunk)) [
      | inl here ↦
          kick_chunks-turn chunk chunks k n db
            (λ old.
              kick_chunks-keeps Kicked-insert chunks k n db
                (same_kick-kicks k name chunk _ db.commands here old))
            (λ d e.
              kick_chunks-keeps Kicked-insert chunks k (suc n) d
                (insert-adds_kick k name _ db d e (ground (arith, str_eq_refl k))))
      | inr there ↦
          let later : has_name name chunks ≡ true = ground arith in
          kick_chunks-turn chunk chunks k n db (λ _. kick_chunks-kicks chunks n db later)
            (λ d e. kick_chunks-kicks chunks (suc n) d later)
    ]

    kick_nodes-kicks :
        (chunks : List (List String)) (nodes : List Node) (n : ℕ) (db : Database)
        → has_name name chunks ≡ true
        → ltb 0 (row_count (node_is k) nodes) ≡ true
        → Commits Kicked (kick_nodes fresh_id quota_only at chunks nodes n db)
    unfolding kick_nodes row_count
    kick_nodes-kicks chunks [] n db h t = absurd (cc)
    kick_nodes-kicks chunks (x ∷ nodes) n db h t = elim (Bool-cases (node_is k x)) [
      | inl here ↦ Commits-bind _ _ (λ (p : ℕ × Database) e.
          kick_nodes-keeps Kicked-insert chunks nodes (p.0) (p.1) (
            (kick_chunks-kicks chunks n db h).at (p.0) (p.1) (
              ap (λ i. kick_chunks fresh_id quota_only at chunks i n db)
                (sym (str_eq→eq x.node_id k here))
              ∙ e)))
      | inr there ↦
          Commits-bind _ _
            (λ (p : ℕ × Database) e. kick_nodes-kicks chunks nodes (p.0) (p.1) h (ground arith))
    ]

-- `WHERE node_id = ?` among the nodes that take commands
abbrev pub takes_kick : String → Node → Bool
takes_kick k x = node_is k x && kick_target x

pub contains-sorted_by :
    (key : String → String) (name : String) (xs : List String)
    → contains name (sorted_by key xs) ≡ contains name xs
contains-sorted_by key name xs =
    contains-row_count name (sorted_by key xs)
    ∙ ap (λ n. ltb 0 n) (row_count-sorted_by key (λ x. str_eq x name) xs)
    ∙ sym (contains-row_count name xs)

module _ (casefold : String → String) (fresh_id : ℕ → String) (at : ℕ) (quota_only : Bool) (n : ℕ)
    (db : Database) where
  module _ {κ} {P : Database → Type κ}
      (keep : (c : Command) (d d' : Database) → insert_command c d ≡ ok d' → P d → P d') where
    kick_sorted-keeps :
        (names : List String)
        → P db
        → Commits P (kick_sorted casefold fresh_id names at quota_only n db)
    unfolding kick_sorted
    kick_sorted-keeps [] h = Commits-ok n db h
    kick_sorted-keeps (x ∷ xs) h = kick_nodes-keeps fresh_id quota_only at keep _ _ n db h

    pub queue_kick_users-keeps :
        (names : List String)
        → P db
        → Commits P (queue_kick_users casefold fresh_id names at quota_only n db)
    unfolding queue_kick_users
    queue_kick_users-keeps names h =
        Commits-guard _ _ _ (λ _. kick_sorted-keeps (kick_order casefold names) h)

  pub queue_kick_users-Consistent :
      (names : List String)
      → Consistent db
      → Commits Consistent (queue_kick_users casefold fresh_id names at quota_only n db)
  queue_kick_users-Consistent names c = queue_kick_users-keeps insert_command-Consistent names c

  kick_sorted-reaches :
      (k name : String) (names : List String)
      → contains name names ≡ true
      → ltb 0 (row_count (takes_kick k) db.nodes) ≡ true
      → Commits
          (λ d. awaits_kick k name d ≡ true)
          (kick_sorted casefold fresh_id names at quota_only n db)
  unfolding kick_sorted contains Kicked
  kick_sorted-reaches k name [] h t = absurd (cc)
  kick_sorted-reaches k name (x ∷ xs) h t =
      kick_nodes-kicks fresh_id quota_only at k name _ _ n db
        (chunks-contains name 99 99 (x ∷ []) xs (ground arith))
        (ap (λ m. ltb 0 m)
            (row_count-sorted_by (λ (y : Node). y.node_id) (node_is k)
                (select_all kick_target db.nodes)
              ∙ row_count-select_all kick_target (node_is k) db.nodes)
          ∙ t)

  -- After a kick was queued, every node that takes commands has, for every named account, a kick
  -- that it has not acknowledged.
  pub queue_kick_users-reaches :
      (k name : String) (names : List String)
      → contains name names ≡ true
      → ltb 0 (row_count (takes_kick k) db.nodes) ≡ true
      → Commits
          (λ d. awaits_kick k name d ≡ true)
          (queue_kick_users casefold fresh_id names at quota_only n db)
  unfolding queue_kick_users
  queue_kick_users-reaches k name names h t = Commits-guard _ _ _ (λ _.
      kick_sorted-reaches k name (kick_order casefold names)
        (contains-sorted_by casefold name (distinct names) ∙ distinct-contains name names h) t)
