-- ===== src/Traffic/Replays/Others.antt =====
-- A batch leaves every other batch that is not known as it was: `apply_traffic_batch` of
-- hysteria2_panel.py.
use hysteria2_panel.Prelude.{
  ℕ, ◌≡◌, refl, ◌∙◌, ap, subst, String, Bool, true, false, List, [], inl, inr, arith, ok,
  Bool-cases, ltb, row_count, str_eq, bind-ok, ok-injective,
}
use hysteria2_panel.Nodes.Row.{Command}
use hysteria2_panel.Nodes.UsageRows.{AppliedBatch}
use hysteria2_panel.Nodes.Database.{Database, insert_command}
use hysteria2_panel.Nodes.Kicks.{distinct, sorted_by}
use hysteria2_panel.Nodes.Invariant.Rules.{insert_command-eq}
use hysteria2_panel.Traffic.Batches.{
  Traffic, Source, Times, batch_is, after_reset, apply_once, count_entries, kick_exhausted,
  remember_batch, apply_new_batch, apply_traffic_batch,
}
use hysteria2_panel.Traffic.Keeps.{count_entries-keeps, kick_exhausted-keeps}
use hysteria2_panel.Traffic.Replays.{apply_batch-checked, after_reset-applied_batches}
use hysteria2_panel.Traffic.Replays.Rows.{remembers-other}

HasApplied : List AppliedBatch → Database → Type 0
HasApplied rows d = d.applied_batches ≡ rows

HasApplied-insert :
    (rows : List AppliedBatch) (c : Command) (d d' : Database)
    → insert_command c d ≡ ok d'
    → HasApplied rows d
    → HasApplied rows d'
unfolding HasApplied
HasApplied-insert rows c d d' e h =
    subst (λ x. x.applied_batches ≡ rows) (insert_command-eq c d d' e).1 h

module _ (casefold : String → String) (fresh_id : ℕ → String) (batch_id other : String)
    (traffic : Traffic) (s : Source) (t : Times) (differ : str_eq batch_id other ≡ false) where
  IsUnknown : Database → Type 0
  IsUnknown db = row_count (batch_is other) db.applied_batches ≡ 0

  apply_new_batch-IsUnknown :
      (db : Database) (r : Bool × Database)
      → apply_new_batch casefold fresh_id batch_id traffic s t db ≡ ok r
      → IsUnknown db
      → IsUnknown (r.1)
  unfolding apply_new_batch HasApplied IsUnknown
  apply_new_batch-IsUnknown db r e h =
      let finish = λ (q : ℕ × Database). record (q.1) {
        applied_batches = remember_batch batch_id t.now (q.1).applied_batches;
      } in
      let (p, counted, rest) = bind-ok (count_entries s t traffic [] db) _ e in
      let names = sorted_by (λ n. n) (distinct (p.0)) in
      let (q, kicked, done) =
        bind-ok (kick_exhausted casefold fresh_id names t.now (p.1)) (λ q. ok (true, finish q))
          rest in
      let same : (p.1).applied_batches ≡ db.applied_batches =
        (count_entries-keeps {P = HasApplied db.applied_batches} (λ _ _ _ _ _ _ _ k. k) s t traffic
            [] db refl).at
          (p.0) (p.1) counted in
      let still : (q.1).applied_batches ≡ db.applied_batches =
        (kick_exhausted-keeps (HasApplied-insert db.applied_batches) casefold fresh_id names t.now
            (p.1) same).at
          (q.0) (q.1) kicked in
      subst (λ (x : Bool × Database). row_count (batch_is other) (x.1).applied_batches ≡ 0)
        (ok-injective done)
        (remembers-other batch_id other t.now (q.1).applied_batches differ
          (ap (row_count (batch_is other)) still ∙ h))

  apply_once-IsUnknown :
      (db : Database) (r : Bool × Database)
      → apply_once casefold fresh_id batch_id traffic s t db ≡ ok r
      → IsUnknown db
      → IsUnknown (r.1)
  unfolding IsUnknown
  apply_once-IsUnknown db r e h =
      elim (Bool-cases (ltb 0 (row_count (batch_is batch_id) db.applied_batches))) [
        | inl old ↦
            subst (λ (x : Bool × Database). row_count (batch_is other) (x.1).applied_batches ≡ 0)
              (ok-injective (rw old at e)) h
        | inr new ↦ apply_new_batch-IsUnknown db r (rw new at e) h
      ]

  pub apply_batch-other :
      (db d : Database) (x : Bool)
      → apply_traffic_batch casefold fresh_id batch_id traffic s t db ≡ ok (x, d)
      → ltb 0 (row_count (batch_is other) db.applied_batches) ≡ false
      → ltb 0 (row_count (batch_is other) d.applied_batches) ≡ false
  unfolding IsUnknown
  apply_batch-other db d x e h =
      let start = after_reset t.accounting_at db in
      let before : row_count (batch_is other) start.applied_batches ≡ 0 =
        ap (row_count (batch_is other))
          (after_reset-applied_batches casefold fresh_id t.accounting_at db)
        ∙ ground (arith, h) in
      ground (
        arith,
        apply_once-IsUnknown start (x, d)
            (apply_batch-checked casefold fresh_id batch_id traffic s t db d x e) before,
      )
