-- ===== src/Traffic/Replays.antt =====
-- A batch of the panel's own servers is counted once: applied again, it is recognised by its id, and
-- the second time writes no counter.
mod Rows
pub mod Nodes
pub mod Others
use hysteria2_panel.Prelude.{
  ℕ, ◌≡◌, refl, sym, ◌∙◌, ap, subst, String, Bool, true, false, ◌&&◌, Option, none, some, [], inl,
  inr, ok, err, ◌>>=◌, ◌>>◌, guard-ok, bind-ok, ok-injective, row_count, ltb, hex_text, name_text,
  Bool-cases,
}
use hysteria2_panel.Nodes.Database.{Database, Error}
use hysteria2_panel.Nodes.Kicks.{distinct, sorted_by}
use hysteria2_panel.Users.Traffic.{
  reset_monthly_traffic_if_due, reset_monthly-cases, begin_month, reset_all_with,
}
use hysteria2_panel.Traffic.Batches.{
  Traffic, Source, Times, batch_is, after_reset, apply_once, identity_matches_kind, remember_batch,
  count_entries, kick_exhausted, apply_new_batch, apply_traffic_batch,
}
use hysteria2_panel.Traffic.Replays.Rows.{remembered}

reset-applied_batches :
    (now : ℕ) (db : Database)
    → (reset_monthly_traffic_if_due now db).1.applied_batches ≡ db.applied_batches
unfolding begin_month reset_all_with
reset-applied_batches now db =
    reset_monthly-cases (λ d. d.applied_batches ≡ db.applied_batches) now db refl (λ _. refl) refl

module _ (casefold : String → String) (fresh_id : ℕ → String) where
  -- The row of a batch that was applied
  apply_new_batch-remembers :
      (batch_id : String) (traffic : Traffic) (s : Source) (t : Times) (db d : Database) (x : Bool)
      → apply_new_batch casefold fresh_id batch_id traffic s t db ≡ ok (x, d)
      → ltb 0 (row_count (batch_is batch_id) d.applied_batches) ≡ true
  unfolding apply_new_batch
  apply_new_batch-remembers batch_id traffic s t db d x e =
      let (p, _, kicks) = bind-ok (count_entries s t traffic [] db) _ e in
      let (q, _, done) =
        bind-ok (kick_exhausted casefold fresh_id (sorted_by (λ n. n) (distinct (p.0))) t.now (p.1))
          (λ (q : ℕ × Database). ok (
            true,
            record (q.1) { applied_batches = remember_batch batch_id t.now (q.1).applied_batches },
          ))
          kicks in
      subst
        (λ (r : Bool × Database).
          ltb 0 (row_count (batch_is batch_id) (r.1).applied_batches) ≡ true)
        (ok-injective done) (remembered batch_id t.now (q.1).applied_batches)

  pub after_reset-applied_batches :
      (at : Option ℕ) (db : Database) → (after_reset at db).applied_batches ≡ db.applied_batches
  after_reset-applied_batches none db = refl
  after_reset-applied_batches (some at) db = reset-applied_batches at db

  apply_once-remembers :
      (batch_id : String) (traffic : Traffic) (s : Source) (t : Times) (db d : Database) (x : Bool)
      → apply_once casefold fresh_id batch_id traffic s t db ≡ ok (x, d)
      → ltb 0 (row_count (batch_is batch_id) d.applied_batches) ≡ true
  apply_once-remembers batch_id traffic s t db d x e =
      elim (Bool-cases (ltb 0 (row_count (batch_is batch_id) db.applied_batches))) [
        | inl old ↦
            subst
              (λ (r : Bool × Database).
                ltb 0 (row_count (batch_is batch_id) (r.1).applied_batches) ≡ true)
              (ok-injective (rw old at e)) old
        | inr new ↦ apply_new_batch-remembers batch_id traffic s t db d x (rw new at e)
      ]

  apply_once-again :
      (batch_id : String) (traffic : Traffic) (s : Source) (t : Times) (db d : Database) (x : Bool)
      → ltb 0 (row_count (batch_is batch_id) db.applied_batches) ≡ true
      → apply_once casefold fresh_id batch_id traffic s t db ≡ ok (x, d)
      → (x ≡ false) × (d ≡ db)
  apply_once-again batch_id traffic s t db d x old e =
      let done = ok-injective (rw old at e) in (sym (ap (λ r. r.0) done), sym (ap (λ r. r.1) done))

  -- A call that did not raise has passed its checks.
  pub apply_batch-checked :
      (batch_id : String) (traffic : Traffic) (s : Source) (t : Times) (db d : Database) (x : Bool)
      → apply_traffic_batch casefold fresh_id batch_id traffic s t db ≡ ok (x, d)
      → apply_once casefold fresh_id batch_id traffic s t (after_reset t.accounting_at db)
        ≡ ok (x, d)
  unfolding apply_traffic_batch
  apply_batch-checked batch_id traffic s t db d x e =
      let (_, rest) = guard-ok (hex_text 32 batch_id) Error.invalid_request _ e in
      (guard-ok (identity_matches_kind s && name_text s.name) Error.invalid_request _ rest).1

  pub apply_batch-remembers :
      (batch_id : String) (traffic : Traffic) (s : Source) (t : Times) (db d : Database) (x : Bool)
      → apply_traffic_batch casefold fresh_id batch_id traffic s t db ≡ ok (x, d)
      → ltb 0 (row_count (batch_is batch_id) d.applied_batches) ≡ true
  apply_batch-remembers batch_id traffic s t db d x e =
      apply_once-remembers batch_id traffic s t (after_reset t.accounting_at db) d x
        (apply_batch-checked batch_id traffic s t db d x e)

  -- A batch that was applied is recognised by its id, whatever the second call holds: the call
  -- answers `False` and writes nothing but, where it is asked for and due, the reset of a month.
  pub batch_is_applied_once :
      (batch_id : String) (traffic traffic' : Traffic) (s s' : Source) (t t' : Times)
      (db db' db'' : Database) (x x' : Bool)
      → apply_traffic_batch casefold fresh_id batch_id traffic s t db ≡ ok (x, db')
      → apply_traffic_batch casefold fresh_id batch_id traffic' s' t' db' ≡ ok (x', db'')
      → (x' ≡ false) × (db'' ≡ after_reset t'.accounting_at db')
  batch_is_applied_once batch_id traffic traffic' s s' t t' db db' db'' x x' e f =
      apply_once-again batch_id traffic' s' t' (after_reset t'.accounting_at db') db'' x'
        (ap (λ rows. ltb 0 (row_count (batch_is batch_id) rows))
            (after_reset-applied_batches t'.accounting_at db')
          ∙ apply_once-remembers batch_id traffic s t (after_reset t.accounting_at db) db' x
              (apply_batch-checked batch_id traffic s t db db' x e))
        (apply_batch-checked batch_id traffic' s' t' db' db'' x' f)
