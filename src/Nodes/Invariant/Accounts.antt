-- ===== src/Nodes/Invariant/Accounts.antt =====
-- The transactions on accounts and the batches of traffic keep the node tables consistent.
use hysteria2_panel.Prelude.{
  strip, ℕ, ◌+◌, false, refl, String, Bool, true, Option, none, some, List, [], ◌∷◌, ◌++◌, ok,
  ◌>>=◌, Commits, Commits-ok, Commits-if, Commits-then, Commits-guard, commits_rules, select_all,
  update, ◌==◌, length, if_cases,
}
use hysteria2_panel.Nodes.Row.{Node, User}
use hysteria2_panel.Nodes.Database.{Database, node_is}
use hysteria2_panel.Nodes.Kicks.{queue_kick_users, distinct, sorted_by}
use hysteria2_panel.Nodes.Kicks.Reach.{queue_kick_users-Consistent}
use hysteria2_panel.Nodes.Invariant.{Consistent}
use hysteria2_panel.Nodes.Invariant.Rules.{
  insert_command-Consistent, update-Consistent, consume_request-Consistent, Commits-after,
}
use hysteria2_panel.Users.{
  insert_user, create_proxy_user, set_proxy_user_enabled, rotate_proxy_token, delete_proxy_user,
  set_user,
}
use hysteria2_panel.Users.Traffic.{
  reset_proxy_user_traffic, set_user_used_traffic, share_used, reset_monthly_traffic_if_due,
  begin_month, reset_all_with, reset_monthly-cases,
}
use hysteria2_panel.Users.Expiry.{
  expire_rows, expire_proxy_users, due_account, expired_row, user_names,
}
use hysteria2_panel.Users.Limits.{
  out_of_time, exhausted, Change, changed_row, set_used_if, kick_if, kick_changed,
  update_proxy_user_limits,
}
use hysteria2_panel.Traffic.Keeps.{
  IgnoresBooks, count_entries-keeps, node_entries-keeps, kick_exhausted-keeps,
}
use hysteria2_panel.Traffic.Batches.{
  Traffic, Source, Times, count_entries, kick_exhausted, apply_new_batch, apply_traffic_batch,
  after_reset, remember_batch,
}
use hysteria2_panel.Traffic.NodeBatches.{
  Report, apply_report, batch_row, counted_report, kick_report, answer_report, apply_new_report,
  take_report, apply_node_traffic_batch, set_ack, acked_traffic,
}

set_used_if-Consistent :
    (used : Option ℕ) (u : User) (now : ℕ) (db : Database)
    → Consistent db
    → Consistent (set_used_if used u now db)
unfolding set_user_used_traffic share_used
set_used_if-Consistent none u now db c = c
set_used_if-Consistent (some used) u now db c =
    if_cases Consistent (u.tx_bytes + u.rx_bytes == used) _ _ (λ _. c) (λ _. c)

pub reset_monthly-Consistent :
    (now : ℕ) (db : Database) → Consistent db → Consistent ((reset_monthly_traffic_if_due now db).1)
unfolding begin_month reset_all_with
reset_monthly-Consistent now db c = reset_monthly-cases Consistent now db c (λ _. c) c

reset_if-Consistent :
    (at : Option ℕ) (db : Database) → Consistent db → Consistent (after_reset at db)
reset_if-Consistent none db c = c
reset_if-Consistent (some at) db c = reset_monthly-Consistent at db c

set_ack-Consistent :
    (node_id : String) (at : ℕ) (db : Database) → Consistent db → Consistent (set_ack node_id at db)
set_ack-Consistent node_id at db c =
    update-Consistent db node_id (node_is node_id) (acked_traffic at) (λ x. refl) (λ x t. t)
      (λ x t e s. record { ready = s.ready; admitted = s.admitted })
      (λ x t a. record { stop = a.stop; start = a.start; uninstall = a.uninstall }) (λ x t p. p) c

ignores : IgnoresBooks Consistent
ignores users origins origin_users daily budgets hourly db c = c

-- The transactions that write only the tables of accounts and their traffic
module _ (casefold name_fingerprint token_fingerprint : String → String) where
  insert_user-Consistent :
      (name token : String) (devices limit : ℕ) (udp : Bool) (type : ℕ) (expires starts : Option ℕ)
      (at : ℕ) (db : Database)
      → Consistent db
      → Commits Consistent (
          insert_user casefold name_fingerprint token_fingerprint name token devices limit udp type
            expires starts at db)
  unfolding insert_user
  insert_user-Consistent name token devices limit udp type expires starts at db c =
      search (commits_rules, c) depth 14

  pub create_proxy_user-Consistent :
      (name token : String) (devices limit : ℕ) (udp : Bool) (type : ℕ) (expires starts : Option ℕ)
      (at : ℕ) (db : Database)
      → Consistent db
      → Commits Consistent (
          create_proxy_user casefold name_fingerprint token_fingerprint name token devices limit udp
            type expires starts at db)
  unfolding create_proxy_user
  create_proxy_user-Consistent name token devices limit udp type expires starts at db c =
      search
        (
          Commits-guard,
          insert_user-Consistent (strip name) token devices limit udp type expires starts at db c,
        )
        depth 16

pub set_proxy_user_enabled-Consistent :
    (id : ℕ) (enabled : Bool) (expected : Option ℕ) (at : ℕ) (db : Database)
    → Consistent db
    → Commits Consistent (set_proxy_user_enabled id enabled expected at db)
unfolding set_proxy_user_enabled
set_proxy_user_enabled-Consistent id enabled expected at db c = search (commits_rules, c) depth 14

pub rotate_proxy_token-Consistent :
    (token_fingerprint : String → String) (id : ℕ) (token : String) (expected : Option ℕ)
    (drain : Bool) (at : ℕ) (db : Database)
    → Consistent db
    → Commits Consistent (rotate_proxy_token token_fingerprint id token expected drain at db)
unfolding rotate_proxy_token
rotate_proxy_token-Consistent token_fingerprint id token expected drain at db c =
    search (commits_rules, c) depth 14

pub delete_proxy_user-Consistent :
    (name_fingerprint : String → String) (id : ℕ) (expected : Option ℕ) (db : Database)
    → Consistent db
    → Commits Consistent (delete_proxy_user name_fingerprint id expected db)
unfolding delete_proxy_user
delete_proxy_user-Consistent name_fingerprint id expected db c = search (commits_rules, c) depth 14

pub reset_proxy_user_traffic-Consistent :
    (id : ℕ) (expected : Option ℕ) (at : ℕ) (db : Database)
    → Consistent db
    → Commits Consistent (reset_proxy_user_traffic id expected at db)
unfolding reset_proxy_user_traffic
reset_proxy_user_traffic-Consistent id expected at db c = search (commits_rules, c) depth 14

module _ (casefold : String → String) (fresh_id : ℕ → String) where
  expire_rows-Consistent :
      (users : List User) (now : ℕ) (db : Database)
      → Consistent db
      → Commits Consistent (expire_rows casefold fresh_id users now db)
  unfolding expire_rows
  expire_rows-Consistent [] now db c = Commits-ok [] db c
  expire_rows-Consistent (u ∷ users) now db c =
      let names = user_names (u ∷ users) in
      let disabled = record db { users = update (due_account now) (expired_row now) db.users } in
      Commits-then (queue_kick_users casefold fresh_id names now false 0 disabled)
        (λ p. ok (names, p.1))
        (queue_kick_users-Consistent casefold fresh_id now false 0 disabled names c)
        (λ n d e k. Commits-ok names d k)

  pub expire_proxy_users-Consistent :
      (now : ℕ) (db : Database)
      → Consistent db
      → Commits Consistent (expire_proxy_users casefold fresh_id now db)
  unfolding expire_proxy_users
  expire_proxy_users-Consistent now db c =
      expire_rows-Consistent (select_all (due_account now) db.users) now db c

  kick_if-Consistent :
      (test : Bool) (name : String) (now : ℕ) (quota_only : Bool) (n : ℕ) (db : Database)
      → Consistent db
      → Commits Consistent (kick_if casefold fresh_id test name now quota_only n db)
  unfolding kick_if
  kick_if-Consistent test name now quota_only n db c =
      Commits-if test _ _
        (λ _. queue_kick_users-Consistent casefold fresh_id now quota_only n db (name ∷ []) c)
        (λ _. Commits-ok n db c)

  kick_changed-Consistent :
      (u updated : User) (now : ℕ) (db : Database)
      → Consistent db
      → Commits Consistent (kick_changed casefold fresh_id u updated now db)
  unfolding kick_changed
  kick_changed-Consistent u updated now db c =
      let first = kick_if casefold fresh_id (out_of_time now updated) u.name now false 0 db in
      let second = λ (p : ℕ × Database).
        kick_if casefold fresh_id (exhausted updated) u.name now true (p.0) (p.1) in
      Commits-then first (λ p. second p >>= λ q. ok (updated, q.1))
        (kick_if-Consistent (out_of_time now updated) u.name now false 0 db c)
        (λ n d e h.
          Commits-then (second (n, d)) (λ q. ok (updated, q.1))
            (kick_if-Consistent (exhausted updated) u.name now true n d h)
            (λ m d' e' k. Commits-ok updated d' k))

  pub update_proxy_user_limits-Consistent :
      (id : ℕ) (change : Change) (expected : Option ℕ) (now : ℕ) (db : Database)
      → Consistent db
      → Commits Consistent (update_proxy_user_limits casefold fresh_id id change expected now db)
  unfolding update_proxy_user_limits
  update_proxy_user_limits-Consistent id change expected now db c =
      let changed = set_user id (changed_row change now) db in
      let kept : (u : User) → Consistent (set_used_if change.used_traffic_bytes u now changed) =
        λ u. set_used_if-Consistent change.used_traffic_bytes u now changed c in
      search (commits_rules, kick_changed-Consistent, kept) depth 14

  apply_new_batch-Consistent :
      (batch_id : String) (traffic : Traffic) (s : Source) (t : Times) (db : Database)
      → Consistent db
      → Commits Consistent (apply_new_batch casefold fresh_id batch_id traffic s t db)
  unfolding apply_new_batch
  apply_new_batch-Consistent batch_id traffic s t db c =
      let kicks = λ (p : List String × Database).
        kick_exhausted casefold fresh_id (sorted_by (λ n. n) (distinct (p.0))) t.now (p.1) in
      let done = λ (q : ℕ × Database). ok (
        true,
        record (q.1) { applied_batches = remember_batch batch_id t.now (q.1).applied_batches },
      ) in
      Commits-then (count_entries s t traffic [] db) (λ p. kicks p >>= done)
        (count_entries-keeps ignores s t traffic [] db c)
        (λ names d e h.
          Commits-then (kicks (names, d)) done
            (kick_exhausted-keeps insert_command-Consistent casefold fresh_id _ t.now d h)
            (λ n d' e' k. Commits-ok true _ k))

  pub apply_traffic_batch-Consistent :
      (batch_id : String) (traffic : Traffic) (s : Source) (t : Times) (db : Database)
      → Consistent db
      → Commits Consistent (apply_traffic_batch casefold fresh_id batch_id traffic s t db)
  unfolding apply_traffic_batch
  apply_traffic_batch-Consistent batch_id traffic s t db c =
      let reset = reset_if-Consistent t.accounting_at db c in
      search (commits_rules, apply_new_batch-Consistent batch_id traffic s t, reset) depth 14

  apply_report-Consistent :
      (r : Report) (n : Node) (db : Database)
      → Consistent db
      → Commits Consistent (apply_report casefold fresh_id r n db)
  unfolding apply_report
  apply_report-Consistent r n db c =
      Commits-then (counted_report r n db) (kick_report casefold fresh_id r)
        (node_entries-keeps ignores r n db.users r.traffic _ _ c)
        (λ y d e h.
          Commits-then _ _
            (queue_kick_users-Consistent casefold fresh_id r.accepted_at true 0 d _ h)
            (λ m d' e' k. Commits-ok _ _ (
              set_ack-Consistent r.node_id r.accepted_at
                (record d' { node_batches = d'.node_batches ++ batch_row r y.unknown ∷ [] }) k)))

  answer_report-Consistent :
      (r : Report) (n : Node) (db : Database)
      → Consistent db
      → Commits Consistent (answer_report casefold fresh_id r n db)
  unfolding answer_report
  answer_report-Consistent r n db c =
      Commits-if (length r.traffic == 0) _ _
        (λ _. Commits-ok _ _ (set_ack-Consistent r.node_id r.accepted_at db c))
        (λ _. apply_report-Consistent r n db c)

  apply_new_report-Consistent :
      (r : Report) (n : Node) (db : Database)
      → Consistent db
      → Commits Consistent (apply_new_report casefold fresh_id r n db)
  unfolding apply_new_report
  apply_new_report-Consistent r n db c = answer_report-Consistent r n _ c

  take_report-Consistent :
      (r : Report) (db : Database)
      → Consistent db
      → Commits Consistent (take_report casefold fresh_id r db)
  unfolding take_report
  take_report-Consistent r db c =
      let reset = reset_monthly-Consistent r.accepted_at db c in
      search (commits_rules, apply_new_report-Consistent, reset) depth 14

  pub apply_node_traffic_batch-Consistent :
      (r : Report) (nonce_digest : String) (db : Database)
      → Consistent db
      → Commits Consistent (apply_node_traffic_batch casefold fresh_id r nonce_digest db)
  unfolding apply_node_traffic_batch
  apply_node_traffic_batch-Consistent r nonce_digest db c =
      Commits-after _ _ (λ d e. consume_request-Consistent _ db d e c)
        (λ d. take_report-Consistent r d)
