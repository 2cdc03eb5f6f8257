-- ===== src/Nodes/Kicks.antt =====
-- `_queue_kick_users_on_ready_nodes` of `class Database` in hysteria2_panel.py: every node under the
-- protocol is told to disconnect the named accounts. `casefold` is `str.casefold`, and `fresh_id n`
-- the id that `uuid.uuid4().hex` gives the n-th command of the transaction.
pub mod Reach
use hysteria2_panel.Prelude.{
  ℕ, zero, suc, String, Bool, true, false, ◌&&◌, ◌||◌, Option, none, some, List, [], ◌∷◌, ◌++◌,
  Result, ok, guard, ◌>>=◌, ◌>>◌, select_all, row_count, ◌==◌, leb, ltb, length, if◌then◌else◌,
  is_set, str_eq, str_le, nocase_eq, name_text,
}
use hysteria2_panel.Nodes.Row.{
  Node, Command, User, kick_users, is_pending_verification, is_ready, in_service, is_kick,
}
use hysteria2_panel.Nodes.Database.{Database, Error, Tx, unacked, insert_command, fixed_command}

-- `name in names`
unfoldable pub contains : String → List String → Bool
contains name [] = false
contains name (x ∷ xs) = str_eq x name || contains name xs

-- `set(names)`
unfoldable pub distinct : List String → List String
distinct [] = []
distinct (x ∷ xs) = let rest = distinct xs in if contains x xs then rest else x ∷ rest

unfoldable pub insert_by {ℓ} : {A : Type ℓ} → (A → String) → A → List A → List A
insert_by key x [] = x ∷ []
insert_by key x (y ∷ ys) =
    let rest = insert_by key x ys in if str_le (key x) (key y) then x ∷ y ∷ ys else y ∷ rest

-- `sorted(xs, key=key)`
unfoldable pub sorted_by {ℓ} : {A : Type ℓ} → (A → String) → List A → List A
sorted_by key [] = []
sorted_by key (x ∷ xs) = insert_by key x (sorted_by key xs)

-- `names[offset:offset + size + 1]` for each offset: `room` names still go into the chunk `current`.
unfoldable pub chunks_from : ℕ → ℕ → List String → List String → List (List String)
chunks_from size room current [] = current ∷ []
chunks_from size zero current (x ∷ xs) = current ∷ chunks_from size size (x ∷ []) xs
chunks_from size (suc room) current (x ∷ xs) = chunks_from size room (current ++ x ∷ []) xs

-- The generations of the accounts of a chunk, as the sorted JSON object
unfoldable pub generations_of : List User → List String → List (String × ℕ)
generations_of [] chunk = []
generations_of (u ∷ users) chunk =
    let rest = generations_of users chunk in
    if ltb 0 (row_count (λ name. nocase_eq u.name name) chunk)
    then insert_by (λ (p : String × ℕ). p.0) (u.name, u.generation) rest
    else rest

unfoldable pub same_names : List String → List String → Bool
same_names [] [] = true
same_names (x ∷ xs) (y ∷ ys) = str_eq x y && same_names xs ys
same_names _ _ = false

unfoldable pub same_generations : List (String × ℕ) → List (String × ℕ) → Bool
same_generations [] [] = true
same_generations ((x, g) ∷ xs) ((y, h) ∷ ys) = str_eq x y && g == h && same_generations xs ys
same_generations _ _ = false

-- `quota_generations IS ?`
unfoldable pub same_quota : Option (List (String × ℕ)) → Option (List (String × ℕ)) → Bool
unfolding same_generations
same_quota none none = true
same_quota (some g) (some h) = same_generations g h
same_quota _ _ = false

abbrev pub quota_of : Bool → List User → List String → Option (List (String × ℕ))
quota_of quota_only users chunk = if quota_only then some (generations_of users chunk) else none

-- The same kick is already pending on the node.
unfoldable pub same_kick : String → List String → Option (List (String × ℕ)) → Command → Bool
unfolding same_names same_quota
same_kick node_id chunk quota c =
    unacked node_id c
    && is_kick c.kind
    && same_names c.payload chunk
    && same_quota c.quota_generations quota

abbrev pub kick_command : String → String → List String → Option (List (String × ℕ)) → ℕ → Command
kick_command command_id node_id chunk quota created_at =
    record (fixed_command command_id node_id kick_users created_at) {
      payload = chunk;
      quota_generations = quota;
    }

-- The nodes that take commands
abbrev pub kick_target : Node → Bool
kick_target n =
    is_ready n.policy_state
    && is_pending_verification n.status
    && is_set n.verified_at
    && in_service n.lifecycle_state

module _ (fresh_id : ℕ → String) (quota_only : Bool) (at : ℕ) where
  -- The loop over the payloads for one node; the number counts the commands so far.
  unfoldable pub kick_chunks :
      List (List String) → String → ℕ → Database → Result Error (ℕ × Database)
  unfolding generations_of same_kick
  kick_chunks [] node_id n db = ok (n, db)
  kick_chunks (chunk ∷ chunks) node_id n db =
      let quota = quota_of quota_only db.users chunk in
      let skipped = kick_chunks chunks node_id n db in
      let queued =
        (insert_command (kick_command (fresh_id n) node_id chunk quota at) db >>= λ db'.
        kick_chunks chunks node_id (suc n) db') in
      if ltb 0 (row_count (same_kick node_id chunk quota) db.commands) then skipped else queued

  -- The loop over the nodes
  unfoldable pub kick_nodes :
      List (List String) → List Node → ℕ → Database → Result Error (ℕ × Database)
  kick_nodes chunks [] n db = ok (n, db)
  kick_nodes chunks (x ∷ nodes) n db = do
    (n', db') ← kick_chunks chunks x.node_id n db
    kick_nodes chunks nodes n' db'

unfoldable pub all_name_texts : List String → Bool
all_name_texts [] = true
all_name_texts (x ∷ xs) = name_text x && all_name_texts xs

abbrev pub kick_order : (casefold : String → String) → List String → List String
kick_order casefold names = sorted_by casefold (distinct names)

module _ (casefold : String → String) (fresh_id : ℕ → String) where
  unfoldable pub kick_sorted : List String → ℕ → Bool → ℕ → Database → Result Error (ℕ × Database)
  kick_sorted [] at quota_only n db = ok (n, db)
  kick_sorted (x ∷ xs) at quota_only n db =
      kick_nodes fresh_id quota_only at (chunks_from 99 99 (x ∷ []) xs)
        (sorted_by (λ (y : Node). y.node_id) (select_all kick_target db.nodes)) n db

  -- The commands are numbered from `n`; the code returns how many were queued, the difference.
  unfoldable pub queue_kick_users : List String → ℕ → Bool → ℕ → Database → Tx ℕ
  queue_kick_users names at quota_only n db = do
    guard (leb (length names) 1000 && all_name_texts names) Error.invalid_request
    kick_sorted (kick_order casefold names) at quota_only n db
