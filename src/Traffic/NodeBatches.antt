-- ===== src/Traffic/NodeBatches.antt =====
-- `apply_node_traffic_batch` of `class Database` in hysteria2_panel.py, for a report without records
-- of domains. The batch of a node is applied once, however often the node sends it.
use hysteria2_panel.Prelude.{
  ℕ, suc, ◌+◌, ◌*◌, ◌-◌, String, Bool, true, false, not, ◌&&◌, ◌||◌, Option, none, some, List, [],
  ◌∷◌, ◌++◌, Result, ok, guard, maybe, found, ◌>>=◌, ◌>>◌, select, update, delete, row_count, ◌==◌,
  leb, ltb, length, append, if◌then◌else◌, str_eq, str_le,
}
use hysteria2_panel.Nodes.Row.{Node, User, NonceRow, Tier, standard, premium, is_ready}
use hysteria2_panel.Nodes.UsageRows.{remote, NodeBatch, Checkpoint}
use hysteria2_panel.Nodes.Database.{Database, Error, Tx, node_is}
use hysteria2_panel.Nodes.Nonce.{consume_request_nonce}
use hysteria2_panel.Nodes.Online.{checkpoint_is, reporting_node}
use hysteria2_panel.Nodes.Kicks.{distinct, queue_kick_users}
use hysteria2_panel.Users.{user_named}
use hysteria2_panel.Users.Traffic.{reset_monthly_traffic_if_due}
use hysteria2_panel.Traffic.{Entry, max_integer, upsert, record_origin, record_usage}
use hysteria2_panel.Traffic.Batches.{Traffic, Source, crosses, add_traffic, entry_of}

-- `NODE_TRAFFIC_LEDGER_MAX_ROWS`
abbrev pub max_node_batches : ℕ
max_node_batches = 700000

-- The answer to the node
pub record Receipt : Type 0 where
  pub batch_id : String
  pub duplicate : Bool
  pub unknown_users : ℕ

pub record Report : Type 0 where
  pub node_id : String
  pub batch_id : String
  pub traffic : Traffic
  pub accepted_at : ℕ
  pub observed_at : ℕ

abbrev pub tier_type : Tier → ℕ
tier_type premium = 1
tier_type standard = 0

abbrev pub source_of : Report → Node → Source
source_of r n = record { origin_id = append "node:" r.node_id; kind = remote; name = n.name }

-- `users.get(name)` among the rows that were read before the loop, of the tier of the node
unfoldable pub node_account : Tier → List User → String → Option User
node_account tier users name =
    maybe (select (λ (u : User). str_eq u.name name) users) none
      λ u. if u.user_type == tier_type tier then some u else none

abbrev pub observed_later : ℕ → User → Bool
observed_later observed_at u = maybe u.traffic_adjusted_at true (λ a. ltb a observed_at)

abbrev pub fits : User → ℕ → ℕ → Bool
fits u tx rx = leb (u.tx_bytes + tx) max_integer && leb (u.rx_bytes + rx) max_integer

-- What the loop has found: how many names are unknown, and the accounts that passed their limit
pub record Tally : Type 0 where
  pub unknown : ℕ
  pub exhausted : List String

abbrev pub tallied : Option User → Bool → ℕ → ℕ → Tally → Tally
tallied none counted tx rx y = record y { unknown = suc y.unknown }
tallied (some u) counted tx rx y =
    if counted && crosses u tx rx then record y { exhausted = y.exhausted ++ u.name ∷ [] } else y

module _ (r : Report) (n : Node) (users : List User) where
  unfoldable pub node_entry : String → ℕ → ℕ → Database → Database
  node_entry name tx rx db =
      let u = node_account n.tier users name in
      let counted = maybe u false (observed_later r.observed_at) in
      let entry =
        entry_of (source_of r n) (some r.node_id) u tx rx r.accepted_at counted r.observed_at in
      record_usage entry (record db {
        users =
            if counted
            then update (user_named name) (add_traffic tx rx r.accepted_at) db.users
            else db.users;
      })

  -- The loop over the traffic
  unfoldable pub node_entries : Traffic → Tally → Database → Result Error (Tally × Database)
  unfolding node_account node_entry
  node_entries [] y db = ok (y, db)
  node_entries ((name, tx, rx) ∷ traffic) y db = do
    let u = node_account n.tier users name
    let counted = maybe u false (observed_later r.observed_at)
    guard (not counted || maybe u true (λ x. fits x tx rx)) Error.overflow
    guard (leb (tx + rx) max_integer) Error.overflow
    node_entries traffic (tallied u counted tx rx y) (node_entry name tx rx db)

abbrev pub node_batch_is : String → String → NodeBatch → Bool
node_batch_is node_id batch_id b = str_eq b.node_id node_id && str_eq b.batch_id batch_id

abbrev pub batch_of_node : String → NodeBatch → Bool
batch_of_node node_id b = str_eq b.node_id node_id

-- `ORDER BY applied_at, batch_id`, strictly
unfoldable pub older_batch : NodeBatch → NodeBatch → Bool
older_batch a b =
    ltb a.applied_at b.applied_at
    || a.applied_at == b.applied_at
      && str_le a.batch_id b.batch_id
      && not (str_eq a.batch_id b.batch_id)

-- The oldest rows of the node, so many that one more fits
unfoldable pub evict : String → List NodeBatch → List NodeBatch
unfolding older_batch
evict node_id rows =
    let surplus = row_count (batch_of_node node_id) rows + 1 - max_node_batches in
    delete
      (λ b.
        batch_of_node node_id b
        && ltb (row_count (λ a. batch_of_node node_id a && older_batch a b) rows) surplus)
      rows

-- Rows of eight days ago are dropped.
abbrev pub old_batch : ℕ → NodeBatch → Bool
old_batch now b = ltb (b.applied_at + 8 * 86400) now

abbrev pub acked_traffic : ℕ → Node → Node
acked_traffic at n = record n { last_traffic_ack_at = some at }

abbrev pub set_ack : String → ℕ → Database → Database
set_ack node_id at db = record db { nodes = update (node_is node_id) (acked_traffic at) db.nodes }

unfoldable pub set_checkpoint : Report → List Checkpoint → List Checkpoint
unfolding upsert
set_checkpoint r rows =
    upsert (checkpoint_is r.node_id)
      (λ c. record c { traffic_observed_at = r.observed_at; online_sequence = none })
      (record { node_id = r.node_id; traffic_observed_at = r.observed_at; online_sequence = none })
      rows

abbrev pub receipt : Report → Bool → ℕ → Receipt
receipt r duplicate unknown = record {
  batch_id = r.batch_id;
  duplicate = duplicate;
  unknown_users = unknown;
}

abbrev pub origin_entry : Report → Node → Entry
origin_entry r n =
    entry_of (source_of r n) (some r.node_id) none 0 0 r.accepted_at false r.observed_at

-- The loop over a report that was not applied before, once there is room for its row
unfoldable pub counted_report : Report → Node → Database → Result Error (Tally × Database)
unfolding evict node_entries record_origin
counted_report r n db =
    node_entries r n db.users r.traffic (record { unknown = 0; exhausted = [] })
      (record db {
        node_batches = evict r.node_id (delete (old_batch r.accepted_at) db.node_batches);
        origins = record_origin (origin_entry r n) db.origins;
      })

abbrev pub batch_row : Report → ℕ → NodeBatch
batch_row r unknown = record {
  node_id = r.node_id;
  batch_id = r.batch_id;
  unknown_users = unknown;
  applied_at = r.accepted_at;
}

-- The row of the batch, and the acknowledgement
abbrev pub finish_report : Report → ℕ → Database → Receipt × Database
finish_report r unknown db = (
  receipt r false unknown,
  set_ack r.node_id r.accepted_at
      (record db { node_batches = db.node_batches ++ batch_row r unknown ∷ [] }),
)

abbrev pub traffic_nonce : Report → String → NonceRow
traffic_nonce r nonce_digest = record {
  node_id = r.node_id;
  purpose = "traffic";
  nonce_digest = nonce_digest;
  accepted_at = r.accepted_at;
}

module _ (casefold : String → String) (fresh_id : ℕ → String) where
  -- What follows the loop
  unfoldable pub kick_report : Report → Tally × Database → Tx Receipt
  kick_report r (y, counted) = do
    (m, kicked) ←
        queue_kick_users casefold fresh_id (distinct y.exhausted) r.accepted_at true 0 counted
    ok (finish_report r y.unknown kicked)

  unfoldable pub apply_report : Report → Node → Database → Tx Receipt
  unfolding counted_report kick_report
  apply_report r n db = counted_report r n db >>= kick_report r

  -- The answer to a report whose checkpoint is written: one without traffic has no row.
  unfoldable pub answer_report : Report → Node → Database → Tx Receipt
  unfolding apply_report
  answer_report r n db =
      let full = apply_report r n db in
      if length r.traffic == 0
      then ok (receipt r false 0, set_ack r.node_id r.accepted_at db)
      else full

  -- What follows the check for a batch that was applied before
  unfoldable pub apply_new_report : Report → Node → Database → Tx Receipt
  unfolding set_checkpoint answer_report
  apply_new_report r n db =
      answer_report r n (record db { checkpoints = set_checkpoint r db.checkpoints })

  unfoldable pub take_report : Report → Database → Tx Receipt
  take_report r db = do
    n ← found (select (reporting_node r.node_id) db.nodes) Error.integrity_error
    guard (is_ready n.policy_state) Error.integrity_error
    let reset = (reset_monthly_traffic_if_due r.accepted_at db).1
    maybe (select (node_batch_is r.node_id r.batch_id) reset.node_batches)
        (apply_new_report r n reset) (λ b. ok (receipt r true b.unknown_users, reset))

  -- The caller answers an error with `None`: nothing was written.
  unfoldable pub apply_node_traffic_batch : Report → String → Database → Tx Receipt
  apply_node_traffic_batch r nonce_digest db =
      consume_request_nonce (traffic_nonce r nonce_digest) db >>= take_report r
