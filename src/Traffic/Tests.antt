-- ===== src/Traffic/Tests.antt =====
-- The theorems on batches of traffic at concrete inputs.
use hysteria2_panel.Prelude.{
  ℕ, Bool, ◌≡◌, ◌+◌, not, ◌&&◌, ltb, if◌then◌else◌, is_null, append, refl, String, true, false,
  some, none, [], ◌∷◌, ok, arith, select, select_all, update, delete, row_count, str_eq, nocase_eq,
  name_text, str_le, hex_text, month_index, beijing_date,
}
use hysteria2_panel.Nodes.Row.{Node, User, standard, pending_verification, protocol_ready}
use hysteria2_panel.Nodes.UsageRows.{local}
use hysteria2_panel.Nodes.Database.{Database, empty_database, insert_command}
use hysteria2_panel.Nodes.Enrollment.Announcement.{new_node}
use hysteria2_panel.Nodes.Nonce.{consume_row, keep_newest, consume_request_nonce}
use hysteria2_panel.Nodes.Kicks.{
  contains, distinct, sorted_by, insert_by, chunks_from, generations_of, kick_chunks, kick_nodes,
  kick_sorted, queue_kick_users, all_name_texts,
}
use hysteria2_panel.Nodes.Kicks.Reach.{awaits_kick}
use hysteria2_panel.Nodes.Requests.{commit}
use hysteria2_panel.Users.{new_user, user_is}
use hysteria2_panel.Users.Traffic.{reset_monthly_traffic_if_due, begin_month, month_start}
use hysteria2_panel.Traffic.{record_usage}
use hysteria2_panel.Traffic.Batches.{
  Traffic, Source, Times, after, after_reset, account_of, counts_for, count_entry, count_entries,
  last_rowid, remember_batch, kick_groups, kick_exhausted, apply_new_batch, apply_traffic_batch,
  batch_is,
}
use hysteria2_panel.Traffic.NodeBatches.{
  Report, receipt, node_account, node_entry, node_entries, evict, counted_report, kick_report,
  apply_report, answer_report, apply_new_report, take_report, apply_node_traffic_batch,
  node_batch_is,
}
use hysteria2_panel.Traffic.Replays.{batch_is_applied_once}
use hysteria2_panel.Traffic.Replays.Nodes.{IsRepeated, node_batch_is_applied_once}
use hysteria2_panel.Traffic.Crossings.Listed.{NamesDiffer}
use hysteria2_panel.Traffic.Crossings.{crossing_is_kicked}
use hysteria2_panel.Traffic.Budgets.{total_of}
use hysteria2_panel.Traffic.Totals.{OneADay, bytes_in}
use hysteria2_panel.Traffic.Totals.Local.{batch_bytes_are_counted}
use hysteria2_panel.Traffic.Totals.Nodes.{node_batch_bytes_are_counted}

abbrev same : String → String
same s = s

abbrev ids : ℕ → String
ids _ = "command"

abbrev bob : User
bob = record (new_user 1 "bob" "secret" 2 1000 true 0 none none 1000) {
  tx_bytes = 300;
  rx_bytes = 100;
}

abbrev ready_node : Node
ready_node = record (new_node "tokyo" "tokyo" none 0 standard "" "" 0 0 false) {
  status = pending_verification;
  verified_at = some 1000;
  policy_state = protocol_ready;
}

abbrev database : Database
database = record empty_database { users = bob ∷ []; nodes = ready_node ∷ [] }

abbrev batch : String
batch = "00000000000000000000000000000001"

abbrev source : Source
source = record {
  origin_id = "local:00000000000000000000000000000002";
  kind = local;
  name = "panel";
}

abbrev traffic : Traffic
traffic = ("bob", 400, 300) ∷ ("nobody", 1, 1) ∷ []

abbrev times : Times
times = record { now = 100000; observed_at = none; accounting_at = none; fresh_local = true }

abbrev applied : Database
applied = commit database (apply_traffic_batch same ids batch traffic source times database)

abbrev crossed : User
crossed = record bob { tx_bytes = 700; rx_bytes = 400; updated_at = 100000 }

applied_once :
    (apply_traffic_batch same ids batch traffic source times database ≡ ok (true, applied))
    × (select (user_is 1) applied.users ≡ some crossed)
unfolding apply_traffic_batch after hex_text name_text apply_new_batch row_count count_entries
    account_of counts_for select update kick_exhausted kick_groups chunks_from queue_kick_users
    kick_sorted distinct contains sorted_by insert_by str_le kick_nodes kick_chunks select_all
    str_eq nocase_eq all_name_texts count_entry record_usage insert_command generations_of
applied_once = (refl, refl)

names_differ : NamesDiffer database.users
unfolding row_count
names_differ name = ground arith

crossing_is_kicked_example : awaits_kick "tokyo" "bob" applied ≡ true
unfolding select row_count str_eq
crossing_is_kicked_example =
    crossing_is_kicked same ids batch traffic source times database applied bob crossed "tokyo"
      names_differ (omega arith) refl refl refl (applied_once.0) (applied_once.1) refl

-- A batch of an unknown name, on a panel without accounts
abbrev strangers : Traffic
strangers = ("nobody", 1, 1) ∷ []

abbrev no_users : Database
no_users = record empty_database { nodes = ready_node ∷ [] }

abbrev applied_strangers : Database
applied_strangers =
    commit no_users (apply_traffic_batch same ids batch strangers source times no_users)

strangers_twice :
    (apply_traffic_batch same ids batch strangers source times no_users
      ≡ ok (true, applied_strangers))
    × (apply_traffic_batch same ids batch strangers source times applied_strangers
        ≡ ok (false, applied_strangers))
unfolding apply_traffic_batch hex_text after name_text row_count remember_batch delete
    apply_new_batch last_rowid count_entries count_entry account_of counts_for select update
    kick_exhausted distinct contains sorted_by record_usage str_eq
strangers_twice = (refl, refl)

batch_is_applied_once_example :
    (◌≡◌ {A = Bool} false false) × (applied_strangers ≡ after_reset none applied_strangers)
batch_is_applied_once_example =
    batch_is_applied_once same ids batch strangers strangers source source times times no_users
      applied_strangers applied_strangers true false (strangers_twice.0) (strangers_twice.1)

abbrev report : Report
report = record {
  node_id = "tokyo";
  batch_id = batch;
  traffic = strangers;
  accepted_at = 100000;
  observed_at = 99990;
}

abbrev later : Report
later = record report { accepted_at = 100060 }

abbrev nonce : String
nonce = "first"

abbrev nonce' : String
nonce' = "second"

abbrev first_tables : Database
first_tables = commit no_users (apply_node_traffic_batch same ids report nonce no_users)

abbrev second_tables : Database
second_tables = commit first_tables (apply_node_traffic_batch same ids later nonce' first_tables)

reported :
    apply_node_traffic_batch same ids report nonce no_users
    ≡ ok (receipt report false 1, first_tables)
unfolding apply_node_traffic_batch consume_request_nonce consume_row keep_newest row_count delete
    take_report reset_monthly_traffic_if_due apply_new_report answer_report apply_report select
    counted_report kick_report queue_kick_users kick_sorted distinct sorted_by all_name_texts str_eq
    node_entries node_account node_entry evict
reported = refl

repeated :
    apply_node_traffic_batch same ids later nonce' first_tables
    ≡ ok (receipt later true 1, second_tables)
unfolding apply_node_traffic_batch consume_request_nonce consume_row keep_newest row_count delete
    take_report reset_monthly_traffic_if_due apply_new_report answer_report apply_report select
    counted_report kick_report queue_kick_users kick_sorted distinct sorted_by all_name_texts str_eq
    node_entries node_account node_entry evict record_usage begin_month month_start update
    month_index beijing_date
repeated = refl

node_batch_is_applied_once_example :
    IsRepeated (receipt report false 1) later first_tables (receipt later true 1) second_tables
node_batch_is_applied_once_example =
    node_batch_is_applied_once same ids report later nonce nonce' no_users first_tables
      second_tables (receipt report false 1) (receipt later true 1) reported refl refl refl repeated

no_days : OneADay empty_database.daily
unfolding row_count
no_days o date = omega arith

batch_bytes_are_counted_example :
    (true ≡ not (ltb 0 (row_count (batch_is batch) database.applied_batches)))
    × OneADay applied.daily
    × (total_of source.origin_id applied.daily
        ≡ total_of source.origin_id database.daily
          + (if true && str_eq source.origin_id source.origin_id then bytes_in traffic else 0))
batch_bytes_are_counted_example =
    batch_bytes_are_counted same ids batch traffic source times source.origin_id database applied
      true no_days (applied_once.0)

node_batch_bytes_are_counted_example :
    (false ≡ not (is_null (select (node_batch_is "tokyo" batch) no_users.node_batches)))
    × OneADay first_tables.daily
    × (total_of "node:tokyo" first_tables.daily
        ≡ total_of "node:tokyo" no_users.daily
          + (if not false && str_eq "node:tokyo" "node:tokyo" then bytes_in strangers else 0))
unfolding append
node_batch_bytes_are_counted_example =
    node_batch_bytes_are_counted same ids "node:tokyo" report nonce no_users first_tables
      (receipt report false 1) no_days reported
