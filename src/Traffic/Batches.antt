-- ===== src/Traffic/Batches.antt =====
-- `apply_traffic_batch` of `class Database` in hysteria2_panel.py, for a batch without records of
-- domains. The traffic is the list of the items of the dictionary: a name, and what was sent and
-- received.
use hysteria2_panel.Prelude.{
  ℕ, suc, ◌+◌, ◌*◌, max, String, Bool, true, false, not, ◌&&◌, ◌||◌, Option, none, some, List, [],
  ◌∷◌, ◌++◌, Result, ok, guard, maybe, ◌>>=◌, ◌>>◌, select, update, delete, row_count, ◌==◌, leb,
  ltb, if◌then◌else◌, is_null, str_eq, hex_text, name_text,
}
use hysteria2_panel.Nodes.Row.{User}
use hysteria2_panel.Nodes.UsageRows.{OriginKind, local, remote, legacy, AppliedBatch}
use hysteria2_panel.Nodes.Database.{Database, Error, Tx}
use hysteria2_panel.Nodes.Kicks.{distinct, sorted_by, chunks_from, queue_kick_users}
use hysteria2_panel.Users.{user_named}
use hysteria2_panel.Users.Traffic.{user_traffic_month, reset_monthly_traffic_if_due}
use hysteria2_panel.Traffic.{Entry, max_integer, record_usage}

pub record Source : Type 0 where
  pub origin_id : String
  pub kind : OriginKind
  pub name : String

abbrev pub Traffic : Type 0
Traffic = List (String × ℕ × ℕ)

-- `LEGACY_USAGE_ORIGIN_ID`
abbrev pub legacy_origin_id : String
legacy_origin_id = "legacy-unattributed"

-- What follows a prefix
unfoldable pub after : String → String → Option String
after String.[] s = some s
after (String.◌∷◌ c p) String.[] = none
after (String.◌∷◌ c p) (String.◌∷◌ d s) =
    let rest = after p s in
    if str_eq (String.◌∷◌ c String.[]) (String.◌∷◌ d String.[]) then rest else none

-- `re.fullmatch(prefix + r"[0-9a-f]{32}", text)`
abbrev pub is_id : String → String → Bool
is_id prefix s = maybe (after prefix s) false (hex_text 32)

unfoldable pub identity_matches_kind : Source → Bool
unfolding after
identity_matches_kind s = elim s.kind [
  | local ↦ is_id "local:" s.origin_id
  | remote ↦ is_id "node:" s.origin_id
  | legacy ↦ str_eq s.origin_id legacy_origin_id
]

-- When a batch was applied, and what it says of its observation
pub record Times : Type 0 where
  pub now : ℕ
  pub observed_at : Option ℕ
  pub accounting_at : Option ℕ
  pub fresh_local : Bool

abbrev pub observed : Times → ℕ
observed t = maybe t.observed_at t.now (λ o. o)

abbrev pub is_local : OriginKind → Bool
is_local local = true
is_local _ = false

-- The account of an entry: the panel's own server accounts for standard accounts only.
unfoldable pub account_of : OriginKind → List User → String → Option User
account_of kind users name =
    maybe (select (user_named name) users) none
      λ u. if is_local kind && not (u.user_type == 0) then none else some u

-- The traffic of the account was not set by hand after the observation.
unfoldable pub counts_for : OriginKind → Times → User → Bool
counts_for kind t u =
    (is_local kind
      && t.fresh_local
      && maybe t.accounting_at true (λ a. user_traffic_month (observed t) == user_traffic_month a))
    || is_null t.observed_at
    || maybe u.traffic_adjusted_at true (λ a. ltb a (observed t))

-- The account passes its limit with this entry.
abbrev pub crosses : User → ℕ → ℕ → Bool
crosses u tx rx =
    ltb (u.tx_bytes + u.rx_bytes) u.traffic_limit_bytes
    && leb u.traffic_limit_bytes (u.tx_bytes + u.rx_bytes + tx + rx)

abbrev pub add_traffic : ℕ → ℕ → ℕ → User → User
add_traffic tx rx now u = record u {
  tx_bytes = u.tx_bytes + tx;
  rx_bytes = u.rx_bytes + rx;
  updated_at = now;
}

abbrev pub entry_of : Source → Option String → Option User → ℕ → ℕ → ℕ → Bool → ℕ → Entry
entry_of s node_id u tx rx now counted observed_at = record {
  origin_id = s.origin_id;
  kind = s.kind;
  origin_name = s.name;
  node_id = node_id;
  user = maybe u none (λ x. some x.name);
  tx = tx;
  rx = rx;
  now = now;
  account_traffic = counted;
  observed_at = observed_at;
}

-- The writes of one entry; the list holds the accounts that passed their limit.
unfoldable pub count_entry :
    Source → Times → String → ℕ → ℕ → List String → Database → List String × Database
unfolding account_of counts_for
count_entry s t name tx rx exhausted db =
    let u = account_of s.kind db.users name in
    let counted = maybe u false (counts_for s.kind t) in
    let entry = entry_of s none u tx rx t.now counted (observed t) in
    (
      maybe u exhausted
          (λ x. if counted && crosses x tx rx then exhausted ++ x.name ∷ [] else exhausted),
      record_usage entry (record db {
        users =
            if counted
            then update (user_named name) (add_traffic tx rx t.now) db.users
            else db.users;
      }),
    )

-- The loop over the entries. SQLite refuses a number of more than 63 bits.
unfoldable pub count_entries :
    Source → Times → Traffic → List String → Database → Result Error (List String × Database)
count_entries s t [] exhausted db = ok (exhausted, db)
count_entries s t ((name, tx, rx) ∷ traffic) exhausted db = do
  guard (leb (tx + rx) max_integer) Error.overflow
  let (exhausted', db') = count_entry s t name tx rx exhausted db
  count_entries s t traffic exhausted' db'

abbrev pub batch_is : String → AppliedBatch → Bool
batch_is batch_id b = str_eq b.batch_id batch_id

unfoldable pub last_rowid : List AppliedBatch → ℕ
last_rowid [] = 0
last_rowid (b ∷ rows) = max b.rowid (last_rowid rows)

-- `TRAFFIC_BATCH_RETENTION_SECONDS`, `TRAFFIC_BATCH_MAX_ROWS`
abbrev pub batch_retention : ℕ
batch_retention = 30 * 86400

abbrev pub max_batches : ℕ
max_batches = 100000

-- The new row is kept; rows that are too old or too many are dropped.
abbrev pub stale_batch : String → ℕ → AppliedBatch → Bool
stale_batch batch_id now b = ltb (b.applied_at + batch_retention) now && not (batch_is batch_id b)

abbrev pub surplus_batch : String → ℕ → AppliedBatch → Bool
surplus_batch batch_id last b = leb (b.rowid + max_batches) last && not (batch_is batch_id b)

unfoldable pub remember_batch : String → ℕ → List AppliedBatch → List AppliedBatch
unfolding last_rowid
remember_batch batch_id now rows =
    let new : AppliedBatch = record {
      rowid = suc (last_rowid rows);
      batch_id = batch_id;
      applied_at = now;
    } in
    let kept = delete (stale_batch batch_id now) (rows ++ new ∷ []) in
    delete (surplus_batch batch_id (last_rowid kept)) kept

-- The tables after the reset of a month that `accounting_at` asks for
abbrev pub after_reset : Option ℕ → Database → Database
after_reset none db = db
after_reset (some at) db = (reset_monthly_traffic_if_due at db).1

module _ (casefold : String → String) (fresh_id : ℕ → String) where
  -- The kicks of the exhausted accounts, a thousand in a call
  unfoldable pub kick_groups : List (List String) → ℕ → ℕ → Database → Result Error (ℕ × Database)
  kick_groups [] now n db = ok (n, db)
  kick_groups (names ∷ groups) now n db = do
    (n', db') ← queue_kick_users casefold fresh_id names now true n db
    kick_groups groups now n' db'

  unfoldable pub kick_exhausted : List String → ℕ → Database → Result Error (ℕ × Database)
  unfolding kick_groups
  kick_exhausted [] now db = ok (0, db)
  kick_exhausted (x ∷ xs) now db = kick_groups (chunks_from 999 999 (x ∷ []) xs) now 0 db

  -- What follows the check for a batch that was applied before
  unfoldable pub apply_new_batch : String → Traffic → Source → Times → Database → Tx Bool
  unfolding count_entries kick_exhausted remember_batch
  apply_new_batch batch_id traffic s t db = do
    (exhausted, counted) ← count_entries s t traffic [] db
    (n, kicked) ← kick_exhausted (sorted_by (λ n. n) (distinct exhausted)) t.now counted
    ok (
      true,
      record kicked { applied_batches = remember_batch batch_id t.now kicked.applied_batches },
    )

  abbrev pub apply_once : String → Traffic → Source → Times → Database → Tx Bool
  apply_once batch_id traffic s t db =
      let applied = apply_new_batch batch_id traffic s t db in
      if ltb 0 (row_count (batch_is batch_id) db.applied_batches) then ok (false, db) else applied

  -- `accounting_at`, where it is given, is also the time `now`.
  unfoldable pub apply_traffic_batch : String → Traffic → Source → Times → Database → Tx Bool
  unfolding identity_matches_kind
  apply_traffic_batch batch_id traffic s t db = do
    guard (hex_text 32 batch_id) Error.invalid_request
    guard (identity_matches_kind s && name_text s.name) Error.invalid_request
    apply_once batch_id traffic s t (after_reset t.accounting_at db)
