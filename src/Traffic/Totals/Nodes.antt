-- ===== src/Traffic/Totals/Nodes.antt =====
-- The total of a machine after `apply_node_traffic_batch` of hysteria2_panel.py.
use hysteria2_panel.Prelude.{
  ℕ, ◌≡◌, refl, sym, subst, ◌+◌, String, Bool, true, false, not, ◌&&◌, ◌||◌, some, List, [], ◌∷◌,
  inl, inr, arith, ok, found, guard-ok, Commits, Commits-ok, Commits-guard, Bool-cases,
  Option-cases, if◌then◌else◌, leb, maybe, select, is_null, length, ◌==◌, str_eq, append, bind-ok,
  ok-injective,
}
use hysteria2_panel.Nodes.Row.{Node, User, is_ready}
use hysteria2_panel.Nodes.UsageRows.{DailyTraffic}
use hysteria2_panel.Nodes.Database.{Database, Error}
use hysteria2_panel.Nodes.Nonce.{consume_request_nonce}
use hysteria2_panel.Nodes.Online.{reporting_node}
use hysteria2_panel.Nodes.Kicks.{distinct, queue_kick_users}
use hysteria2_panel.Nodes.Kicks.Reach.{queue_kick_users-keeps}
use hysteria2_panel.Nodes.Invariant.Rules.{consume_request-eq}
use hysteria2_panel.Users.Traffic.{reset_monthly_traffic_if_due}
use hysteria2_panel.Traffic.{max_integer, record_usage}
use hysteria2_panel.Traffic.Batches.{Traffic, entry_of}
use hysteria2_panel.Traffic.NodeBatches.{
  Report, Receipt, Tally, tallied, fits, node_batch_is, node_account, observed_later, source_of,
  node_entry, node_entries, counted_report, finish_report, kick_report, apply_report, answer_report,
  apply_new_report, take_report, traffic_nonce, apply_node_traffic_batch,
}
use hysteria2_panel.Traffic.Replays.Nodes.{reset-node_batches}
use hysteria2_panel.Traffic.Budgets.{total_of}
use hysteria2_panel.Traffic.Totals.{
  OneADay, bytes_in, Grown, Grown-none, Grown-more, record_day-Grown, reset-daily, HasDaily-insert,
}

-- The origin of the traffic of a node
abbrev origin_of : Report → String
origin_of r = append "node:" r.node_id

module _ (o : String) (r : Report) where
  -- The bytes of some entries, if the machine is the node
  abbrev own : ℕ → ℕ
  own bytes = if str_eq (origin_of r) o then bytes else 0

  node_entry-Grown :
      (n : Node) (users : List User) (name : String) (tx rx : ℕ) (db : Database)
      → OneADay db.daily
      → Grown o (own (tx + rx)) db.daily (node_entry r n users name tx rx db).daily
  unfolding node_entry record_usage
  node_entry-Grown n users name tx rx db h =
      let u = node_account n.tier users name in
      record_day-Grown
        (entry_of (source_of r n) (some r.node_id) u tx rx r.accepted_at
          (maybe u false (observed_later r.observed_at)) r.observed_at)
        o db.daily h

  node_entries-Grown :
      (n : Node) (users : List User) (traffic : Traffic) (y : Tally) (db : Database)
      → OneADay db.daily
      → Commits
          (λ d. Grown o (own (bytes_in traffic)) db.daily d.daily)
          (node_entries r n users traffic y db)
  unfolding node_entries
  node_entries-Grown n users [] y db h =
      Commits-ok y db (Grown-none o (str_eq (origin_of r) o) db.daily h)
  node_entries-Grown n users ((name, tx, rx) ∷ traffic) y db h =
      let u = node_account n.tier users name in
      let counted = maybe u false (observed_later r.observed_at) in
      let first = node_entry r n users name tx rx db in
      let grown = node_entry-Grown n users name tx rx db h in
      Commits-guard (not counted || maybe u true (λ x. fits x tx rx)) Error.overflow _ (λ _.
        Commits-guard (leb (tx + rx) max_integer) Error.overflow _ (λ _. record {
          at = λ a d e.
              Grown-more o (tx + rx) (bytes_in traffic) (str_eq (origin_of r) o) db.daily
                first.daily d.daily grown
                ((node_entries-Grown n users traffic (tallied u counted tx rx y) first grown.one).at
                  a d e);
        }))

module _ (casefold : String → String) (fresh_id : ℕ → String) (o : String) (r : Report) where
  -- What a call answers, and what it adds to the total of a machine
  Adds : Bool → List DailyTraffic → Receipt × Database → Type 0
  Adds old rows (c, d) =
      (c.duplicate ≡ old) × Grown o (if old then 0 else own o r (bytes_in r.traffic)) rows d.daily

  apply_report-Adds :
      (n : Node) (db : Database) (x : Receipt × Database)
      → OneADay db.daily
      → apply_report casefold fresh_id r n db ≡ ok x
      → Adds false db.daily x
  unfolding apply_report counted_report kick_report Adds
  apply_report-Adds n db x h e =
      let (p, counted, rest) =
        bind-ok (counted_report r n db) (kick_report casefold fresh_id r) e in
      let (q, queued, done) =
        bind-ok
          (queue_kick_users casefold fresh_id (distinct (p.0).exhausted) r.accepted_at true 0 (p.1))
          (λ (q : ℕ × Database). ok (finish_report r (p.0).unknown (q.1))) rest in
      let grown = (node_entries-Grown o r n db.users r.traffic _ _ h).at (p.0) (p.1) counted in
      let same : (q.1).daily ≡ (p.1).daily =
        (queue_kick_users-keeps casefold fresh_id r.accepted_at true 0 (p.1)
            (HasDaily-insert (p.1).daily) (distinct (p.0).exhausted) refl).at
          (q.0) (q.1) queued in
      subst (Adds false db.daily) (ok-injective done)
        (refl, subst (Grown o (own o r (bytes_in r.traffic)) db.daily) (sym same) grown)

  empty-Grown :
      (rows : List DailyTraffic)
      → OneADay rows
      → (traffic : Traffic) → length traffic ≡ 0
      → Grown o (own o r (bytes_in traffic)) rows rows
  empty-Grown rows h [] e = Grown-none o (str_eq (origin_of r) o) rows h
  empty-Grown rows h (x ∷ traffic) e = absurd (omega (arith, e))

  answer_report-Adds :
      (n : Node) (db : Database) (x : Receipt × Database)
      → OneADay db.daily
      → answer_report casefold fresh_id r n db ≡ ok x
      → Adds false db.daily x
  unfolding answer_report Adds
  answer_report-Adds n db x h e = elim (Bool-cases (length r.traffic == 0)) [
    | inl empty ↦
        subst (Adds false db.daily) (ok-injective (rw empty at e))
          (refl, empty-Grown db.daily h r.traffic (ground arith))
    | inr full ↦ apply_report-Adds n db x h (rw full at e)
  ]

  take_report-Adds :
      (db : Database) (x : Receipt × Database)
      → OneADay db.daily
      → take_report casefold fresh_id r db ≡ ok x
      → Adds
          (not (is_null (select (node_batch_is r.node_id r.batch_id) db.node_batches)))
          db.daily
          x
  unfolding take_report apply_new_report Adds
  take_report-Adds db x h e =
      let reset = (reset_monthly_traffic_if_due r.accepted_at db).1 in
      let row = select (node_batch_is r.node_id r.batch_id) reset.node_batches in
      let (n, _, rest) =
        bind-ok (found (select (reporting_node r.node_id) db.nodes) Error.integrity_error) _ e in
      let (_, answer) = guard-ok (is_ready n.policy_state) Error.integrity_error _ rest in
      let day = reset-daily r.accepted_at db in
      let h' : OneADay reset.daily = subst OneADay (sym day) h in
      let from_reset : Adds (not (is_null row)) reset.daily x = elim (Option-cases row) [
        | inl absent ↦ rw absent (answer_report-Adds n _ x h' (rw absent at answer))
        | inr (b, present) ↦ rw present (
            subst (Adds true reset.daily) (ok-injective (rw present at answer))
              (refl, Grown-none o false reset.daily h'))
      ] in
      subst
        (λ rows. Adds (not (is_null (select (node_batch_is r.node_id r.batch_id) rows))) db.daily x)
        (reset-node_batches r.accepted_at db)
        (subst (λ rows. Adds (not (is_null row)) rows x) day from_reset)

  -- A report of a node that was not applied before adds the bytes of all its entries to the total of
  -- the node in the table of days, whether their names have accounts of its tier or not. A report
  -- that is known is answered as a duplicate and adds nothing. No other machine gets any bytes, and a
  -- machine still has one row for a day. The table before has one row for a machine and a day.
  pub node_batch_bytes_are_counted :
      (nonce : String) (db d : Database) (c : Receipt)
      → OneADay db.daily
      → apply_node_traffic_batch casefold fresh_id r nonce db ≡ ok (c, d)
      → (c.duplicate ≡ not (is_null (select (node_batch_is r.node_id r.batch_id) db.node_batches)))
        × OneADay d.daily
        × (total_of o d.daily
            ≡ total_of o db.daily
              + (if not c.duplicate && str_eq (origin_of r) o then bytes_in r.traffic else 0))
  unfolding apply_node_traffic_batch Adds
  node_batch_bytes_are_counted nonce db d c h e =
      let (d', used, taken) =
        bind-ok (consume_request_nonce (traffic_nonce r nonce) db) (take_report casefold fresh_id r)
          e in
      let (table, noted) = consume_request-eq _ db d' used in
      let (answer, grown) =
        take_report-Adds (record db { request_nonces = table }) (c, d) h
          (subst (λ x. take_report casefold fresh_id r x ≡ ok (c, d)) (sym noted) taken) in
      (answer, grown.one, ground (arith, grown.total, answer))
