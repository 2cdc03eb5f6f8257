-- ===== src/Traffic/Replays/Nodes.antt =====
-- A report of a node is counted once: sent again, it is recognised by its id, and the second time
-- writes no counter.
use hysteria2_panel.Prelude.{
  ℕ, ◌≡◌, refl, sym, ◌∙◌, ap, subst, String, true, none, some, List, [], ◌∷◌, ◌++◌, inl, inr, arith,
  ok, found, guard-ok, bind-ok, ok-injective, select, delete, ltb, length, Option-cases,
  str_eq_refl,
}
use hysteria2_panel.Nodes.Row.{Node, Command, NonceRow, is_ready}
use hysteria2_panel.Nodes.UsageRows.{NodeBatch}
use hysteria2_panel.Nodes.Database.{Database, Error, insert_command}
use hysteria2_panel.Nodes.Nonce.{consume_request_nonce}
use hysteria2_panel.Nodes.Online.{reporting_node}
use hysteria2_panel.Nodes.Kicks.{distinct, queue_kick_users}
use hysteria2_panel.Nodes.Kicks.Reach.{queue_kick_users-keeps}
use hysteria2_panel.Nodes.Invariant.Rules.{insert_command-eq, consume_request-eq}
use hysteria2_panel.Users.Traffic.{
  reset_monthly_traffic_if_due, reset_monthly-cases, begin_month, reset_all_with,
}
use hysteria2_panel.Traffic.NodeBatches.{
  Report, Receipt, Tally, receipt, batch_row, node_batch_is, evict, old_batch, counted_report,
  finish_report, kick_report, apply_report, answer_report, apply_new_report, take_report,
  traffic_nonce, apply_node_traffic_batch,
}
use hysteria2_panel.Traffic.Keeps.{node_entries-keeps}
use hysteria2_panel.Traffic.Replays.Rows.{select-none-delete, select-snoc}

HasNodeBatches : List NodeBatch → Database → Type 0
HasNodeBatches rows d = d.node_batches ≡ rows

HasNodeBatches-insert :
    (rows : List NodeBatch) (c : Command) (d d' : Database)
    → insert_command c d ≡ ok d'
    → HasNodeBatches rows d
    → HasNodeBatches rows d'
unfolding HasNodeBatches
HasNodeBatches-insert rows c d d' e h =
    subst (λ x. x.node_batches ≡ rows) (insert_command-eq c d d' e).1 h

pub reset-node_batches :
    (now : ℕ) (db : Database)
    → (reset_monthly_traffic_if_due now db).1.node_batches ≡ db.node_batches
unfolding begin_month reset_all_with
reset-node_batches now db =
    reset_monthly-cases (λ d. d.node_batches ≡ db.node_batches) now db refl (λ _. refl) refl

-- The tables hold the row of a batch, with the number of unknown names that the receipt gives.
IsReceipted : String → String → Receipt → Database → Type 0
IsReceipted node_id batch_id c d =
    (b : NodeBatch) × (select (node_batch_is node_id batch_id) d.node_batches ≡ some b)
    × (b.unknown_users ≡ c.unknown_users)

-- What a repeated batch is answered, and what is left of it in the tables
pub record IsRepeated (first : Receipt) (again : Report) (before : Database) (second : Receipt)
    (after : Database) : Type 0 where
  pub answer : second ≡ receipt again true first.unknown_users
  pub nonces : List NonceRow
  pub tables :
      after
      ≡ (reset_monthly_traffic_if_due again.accepted_at
          (record before { request_nonces = nonces })).1

module _ (casefold : String → String) (fresh_id : ℕ → String) where
  kick_report-IsReceipted :
      (r : Report) (y : Tally) (d d' : Database) (c : Receipt)
      → select (node_batch_is r.node_id r.batch_id) d.node_batches ≡ none
      → kick_report casefold fresh_id r (y, d) ≡ ok (c, d')
      → IsReceipted r.node_id r.batch_id c d'
  unfolding kick_report IsReceipted HasNodeBatches
  kick_report-IsReceipted r y d d' c absent e =
      let queue =
        queue_kick_users casefold fresh_id (distinct y.exhausted) r.accepted_at true 0 d in
      let (p, queued, done) =
        bind-ok queue (λ (q : ℕ × Database). ok (finish_report r y.unknown (q.1))) e in
      let same : (p.1).node_batches ≡ d.node_batches =
        (queue_kick_users-keeps casefold fresh_id r.accepted_at true 0 d
            (HasNodeBatches-insert d.node_batches) (distinct y.exhausted) refl).at
          (p.0) (p.1) queued in
      subst (λ (q : Receipt × Database). IsReceipted r.node_id r.batch_id (q.0) (q.1))
        (ok-injective done)
        (
          batch_row r y.unknown,
          ap
                (λ rows.
                  select (node_batch_is r.node_id r.batch_id) (rows ++ batch_row r y.unknown ∷ []))
                same
              ∙ select-snoc (node_batch_is r.node_id r.batch_id) (batch_row r y.unknown)
                  d.node_batches absent
                  (ground (arith, str_eq_refl r.node_id, str_eq_refl r.batch_id)),
          refl,
        )

  apply_report-IsReceipted :
      (r : Report) (n : Node) (db d' : Database) (c : Receipt)
      → select (node_batch_is r.node_id r.batch_id) db.node_batches ≡ none
      → apply_report casefold fresh_id r n db ≡ ok (c, d')
      → IsReceipted r.node_id r.batch_id c d'
  unfolding apply_report counted_report evict HasNodeBatches
  apply_report-IsReceipted r n db d' c absent e =
      let kept = evict r.node_id (delete (old_batch r.accepted_at) db.node_batches) in
      let (p, counted, done) =
        bind-ok (counted_report r n db) (kick_report casefold fresh_id r) e in
      let same : (p.1).node_batches ≡ kept =
        (node_entries-keeps {P = HasNodeBatches kept} (λ _ _ _ _ _ _ _ h. h) r n db.users r.traffic
            _ _ refl).at
          (p.0) (p.1) counted in
      kick_report-IsReceipted r (p.0) (p.1) d' c
        (ap (select (node_batch_is r.node_id r.batch_id)) same
          ∙ select-none-delete _ _ (delete (old_batch r.accepted_at) db.node_batches)
              (select-none-delete _ _ db.node_batches absent))
        done

  answer_report-IsReceipted :
      (r : Report) (n : Node) (db d' : Database) (c : Receipt)
      → ltb 0 (length r.traffic) ≡ true
      → select (node_batch_is r.node_id r.batch_id) db.node_batches ≡ none
      → answer_report casefold fresh_id r n db ≡ ok (c, d')
      → IsReceipted r.node_id r.batch_id c d'
  unfolding answer_report
  answer_report-IsReceipted r n db d' c full absent e =
      apply_report-IsReceipted r n db d' c absent (ground arith)

  take_report-IsReceipted :
      (r : Report) (db d' : Database) (c : Receipt)
      → ltb 0 (length r.traffic) ≡ true
      → take_report casefold fresh_id r db ≡ ok (c, d')
      → IsReceipted r.node_id r.batch_id c d'
  unfolding take_report apply_new_report IsReceipted
  take_report-IsReceipted r db d' c full e =
      let reset = (reset_monthly_traffic_if_due r.accepted_at db).1 in
      let row = select (node_batch_is r.node_id r.batch_id) reset.node_batches in
      let (n, _, rest) =
        bind-ok (found (select (reporting_node r.node_id) db.nodes) Error.integrity_error) _ e in
      let (_, answer) = guard-ok (is_ready n.policy_state) Error.integrity_error _ rest in
      elim (Option-cases row) [
        | inl absent ↦ answer_report-IsReceipted r n _ d' c full absent (rw absent at answer)
        | inr (b, present) ↦
            subst (λ (q : Receipt × Database). IsReceipted r.node_id r.batch_id (q.0) (q.1))
              (ok-injective (rw present at answer)) (b, present, refl)
      ]

  -- The answer to a batch whose row is there
  take_report-again :
      (r : Report) (db d' : Database) (c : Receipt) (b : NodeBatch)
      → select (node_batch_is r.node_id r.batch_id) db.node_batches ≡ some b
      → take_report casefold fresh_id r db ≡ ok (c, d')
      → (c ≡ receipt r true b.unknown_users)
        × (d' ≡ (reset_monthly_traffic_if_due r.accepted_at db).1)
  unfolding take_report
  take_report-again r db d' c b present e =
      let reset = (reset_monthly_traffic_if_due r.accepted_at db).1 in
      let (n, _, rest) =
        bind-ok (found (select (reporting_node r.node_id) db.nodes) Error.integrity_error) _ e in
      let (_, answer) = guard-ok (is_ready n.policy_state) Error.integrity_error _ rest in
      let there : select (node_batch_is r.node_id r.batch_id) reset.node_batches ≡ some b =
        ap (select (node_batch_is r.node_id r.batch_id)) (reset-node_batches r.accepted_at db)
        ∙ present in
      let done = ok-injective (rw there at answer) in
      (sym (ap (λ q. q.0) done), sym (ap (λ q. q.1) done))

  -- A batch with traffic that a node reported is recognised when the node sends it again, whatever
  -- the second report holds: it is answered as a duplicate with the same number of unknown names, and
  -- nothing is written but its nonce and, if a month has begun, the reset of that month.
  pub node_batch_is_applied_once :
      (first again : Report) (nonce nonce' : String) (db db' db'' : Database) (c c' : Receipt)
      → apply_node_traffic_batch casefold fresh_id first nonce db ≡ ok (c, db')
      → ltb 0 (length first.traffic) ≡ true
      → again.node_id ≡ first.node_id
      → again.batch_id ≡ first.batch_id
      → apply_node_traffic_batch casefold fresh_id again nonce' db' ≡ ok (c', db'')
      → IsRepeated c again db' c' db''
  unfolding apply_node_traffic_batch IsReceipted
  node_batch_is_applied_once first again nonce nonce' db db' db'' c c' e full same_node same_batch
        f =
      let (d, _, taken) =
        bind-ok (consume_request_nonce (traffic_nonce first nonce) db)
          (take_report casefold fresh_id first) e in
      let (b, there, unknown) = take_report-IsReceipted first d db' c full taken in
      let (d', used, retaken) =
        bind-ok (consume_request_nonce (traffic_nonce again nonce') db')
          (take_report casefold fresh_id again) f in
      let (table, noted) = consume_request-eq _ db' d' used in
      let present : select (node_batch_is again.node_id again.batch_id) d'.node_batches ≡ some b =
        subst (λ x. select (node_batch_is again.node_id again.batch_id) x.node_batches ≡ some b)
          noted (rw (same_node, same_batch) there) in
      let (answered, left) = take_report-again again d' db'' c' b present retaken in
      record {
        answer = answered ∙ ap (receipt again true) unknown;
        nonces = table;
        tables = left ∙ ap (λ x. (reset_monthly_traffic_if_due again.accepted_at x).1) (sym noted);
      }
