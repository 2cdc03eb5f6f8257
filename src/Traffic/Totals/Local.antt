-- ===== src/Traffic/Totals/Local.antt =====
-- The total of a machine after `apply_traffic_batch` of hysteria2_panel.py.
use hysteria2_panel.Prelude.{
  ℕ, ◌≡◌, refl, sym, ◌∙◌, ap, subst, ◌+◌, String, Bool, true, false, not, ◌&&◌, none, List, [], ◌∷◌,
  inl, inr, arith, ok, Commits, Commits-ok, Commits-guard, Bool-cases, if◌then◌else◌, ltb, leb,
  maybe, row_count, str_eq, bind-ok, ok-injective,
}
use hysteria2_panel.Nodes.Database.{Database, Error}
use hysteria2_panel.Nodes.Kicks.{distinct, sorted_by}
use hysteria2_panel.Traffic.{max_integer, record_usage}
use hysteria2_panel.Traffic.Batches.{
  Traffic, Source, Times, batch_is, after_reset, apply_once, count_entry, count_entries, account_of,
  counts_for, entry_of, observed, kick_exhausted, remember_batch, apply_new_batch,
  apply_traffic_batch,
}
use hysteria2_panel.Traffic.Keeps.{kick_exhausted-keeps}
use hysteria2_panel.Traffic.Replays.{apply_batch-checked, after_reset-applied_batches}
use hysteria2_panel.Traffic.Totals.{
  OneADay, bytes_in, Grown, Grown-none, Grown-more, record_day-Grown, after_reset-daily,
  HasDaily-insert,
}
use hysteria2_panel.Traffic.Budgets.{total_of}

module _ (o : String) (s : Source) (t : Times) where
  -- The bytes of some entries, if they are those of the machine
  abbrev own : ℕ → ℕ
  own bytes = if str_eq s.origin_id o then bytes else 0

  count_entry-Grown :
      (name : String) (tx rx : ℕ) (exhausted : List String) (db : Database)
      → OneADay db.daily
      → Grown o (own (tx + rx)) db.daily ((count_entry s t name tx rx exhausted db).1).daily
  unfolding count_entry record_usage account_of counts_for
  count_entry-Grown name tx rx exhausted db h =
      let u = account_of s.kind db.users name in
      record_day-Grown
        (entry_of s none u tx rx t.now (maybe u false (counts_for s.kind t)) (observed t)) o
        db.daily h

  count_entries-Grown :
      (traffic : Traffic) (exhausted : List String) (db : Database)
      → OneADay db.daily
      → Commits
          (λ d. Grown o (own (bytes_in traffic)) db.daily d.daily)
          (count_entries s t traffic exhausted db)
  unfolding count_entries
  count_entries-Grown [] exhausted db h =
      Commits-ok exhausted db (Grown-none o (str_eq s.origin_id o) db.daily h)
  count_entries-Grown ((name, tx, rx) ∷ traffic) exhausted db h =
      let first = count_entry s t name tx rx exhausted db in
      let grown = count_entry-Grown name tx rx exhausted db h in
      Commits-guard (leb (tx + rx) max_integer) Error.overflow _ (λ _. record {
        at = λ a d e.
            Grown-more o (tx + rx) (bytes_in traffic) (str_eq s.origin_id o) db.daily
              (first.1).daily d.daily grown
              ((count_entries-Grown traffic (first.0) (first.1) grown.one).at a d e);
      })

is_known : String → Database → Bool
is_known batch_id db = ltb 0 (row_count (batch_is batch_id) db.applied_batches)

module _ (casefold : String → String) (fresh_id : ℕ → String) (batch_id : String)
    (traffic : Traffic) (s : Source) (t : Times) (o : String) where
  -- What a call answers, and what it adds to the total of a machine
  Adds : Bool → Database → Bool × Database → Type 0
  Adds new db (x, d) =
      (x ≡ new) × Grown o (if new then own o s t (bytes_in traffic) else 0) db.daily d.daily

  apply_new_batch-Adds :
      (db : Database) (r : Bool × Database)
      → OneADay db.daily
      → apply_new_batch casefold fresh_id batch_id traffic s t db ≡ ok r
      → Adds true db r
  unfolding apply_new_batch Adds
  apply_new_batch-Adds db r h e =
      let finish = λ (q : ℕ × Database). record (q.1) {
        applied_batches = remember_batch batch_id t.now (q.1).applied_batches;
      } in
      let (p, counted, rest) = bind-ok (count_entries s t traffic [] db) _ e in
      let names = sorted_by (λ n. n) (distinct (p.0)) in
      let (q, kicked, done) =
        bind-ok (kick_exhausted casefold fresh_id names t.now (p.1)) (λ q. ok (true, finish q))
          rest in
      let grown = (count_entries-Grown o s t traffic [] db h).at (p.0) (p.1) counted in
      let same : (q.1).daily ≡ (p.1).daily =
        (kick_exhausted-keeps (HasDaily-insert (p.1).daily) casefold fresh_id names t.now (p.1)
            refl).at
          (q.0) (q.1) kicked in
      subst (Adds true db) (ok-injective done)
        (refl, subst (Grown o (own o s t (bytes_in traffic)) db.daily) (sym same) grown)

  apply_once-Adds :
      (db : Database) (r : Bool × Database)
      → OneADay db.daily
      → apply_once casefold fresh_id batch_id traffic s t db ≡ ok r
      → Adds (not (is_known batch_id db)) db r
  unfolding is_known Adds
  apply_once-Adds db r h e = elim (Bool-cases (is_known batch_id db)) [
    | inl old ↦
        rw old
          (subst (Adds false db) (ok-injective (rw old at e)) (refl, Grown-none o false db.daily h))
    | inr new ↦ rw new (apply_new_batch-Adds db r h (rw new at e))
  ]

  -- A batch that was applied adds the bytes of all its entries to the total of its machine in the
  -- table of days, whether their names have accounts or not, and the call answers `True`; a batch
  -- that is known adds nothing, and the call answers `False`. No other machine gets any bytes, and a
  -- machine still has one row for a day. The table before has one row for a machine and a day.
  pub batch_bytes_are_counted :
      (db d : Database) (new : Bool)
      → OneADay db.daily
      → apply_traffic_batch casefold fresh_id batch_id traffic s t db ≡ ok (new, d)
      → (new ≡ not (ltb 0 (row_count (batch_is batch_id) db.applied_batches)))
        × OneADay d.daily
        × (total_of o d.daily
            ≡ total_of o db.daily + (if new && str_eq s.origin_id o then bytes_in traffic else 0))
  unfolding is_known Adds
  batch_bytes_are_counted db d new h e =
      let start = after_reset t.accounting_at db in
      let same = after_reset-daily t.accounting_at db in
      let (answer, grown) =
        apply_once-Adds start (new, d) (subst OneADay (sym same) h)
          (apply_batch-checked casefold fresh_id batch_id traffic s t db d new e) in
      let known =
        ap (λ rows. not (ltb 0 (row_count (batch_is batch_id) rows)))
          (after_reset-applied_batches casefold fresh_id t.accounting_at db) in
      (answer ∙ known, grown.one, ground (arith, grown.total, answer, ap (total_of o) same))
