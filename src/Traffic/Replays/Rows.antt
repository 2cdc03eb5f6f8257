-- ===== src/Traffic/Replays/Rows.antt =====
-- The rows by which a batch is recognised.
use hysteria2_panel.Prelude.{
  ℕ, suc, ◌≡◌, refl, String, Bool, true, none, some, List, [], ◌∷◌, ◌++◌, arith, select, delete,
  row_count, row_count-delete, row_count-delete-le, row_count-snoc, false, str_eq, ltb, str_eq_refl,
}
use hysteria2_panel.Nodes.UsageRows.{AppliedBatch}
use hysteria2_panel.Traffic.Batches.{
  batch_is, stale_batch, surplus_batch, last_rowid, remember_batch,
}

module _ {ℓ} {A : Type ℓ} where
  pub select-none-delete :
      (test old : A → Bool) (xs : List A)
      → select test xs ≡ none
      → select test (delete old xs) ≡ none
  unfolding select delete
  select-none-delete test old [] h = refl
  select-none-delete test old (x ∷ xs) h = ground (arith, select-none-delete test old xs)

  pub select-snoc :
      (test : A → Bool) (x : A) (xs : List A)
      → select test xs ≡ none
      → test x ≡ true
      → select test (xs ++ x ∷ []) ≡ some x
  unfolding select
  select-snoc test x [] h t = ground arith
  select-snoc test x (y ∷ ys) h t = ground (arith, select-snoc test x ys)

-- The row of a new batch is not dropped at once.
pub remembered :
    (batch_id : String) (now : ℕ) (rows : List AppliedBatch)
    → ltb 0 (row_count (batch_is batch_id) (remember_batch batch_id now rows)) ≡ true
unfolding remember_batch
remembered batch_id now rows =
    let new : AppliedBatch = record {
      rowid = suc (last_rowid rows);
      batch_id = batch_id;
      applied_at = now;
    } in
    let kept = delete (stale_batch batch_id now) (rows ++ new ∷ []) in
    ground (
      arith,
      row_count-delete (batch_is batch_id) (surplus_batch batch_id (last_rowid kept)) kept
          (λ b t. ground arith),
      row_count-delete (batch_is batch_id) (stale_batch batch_id now) (rows ++ new ∷ [])
          (λ b t. ground arith),
      row_count-snoc (batch_is batch_id) new rows,
      str_eq_refl batch_id,
    )

-- A row of another batch is not made.
pub remembers-other :
    (batch_id other : String) (now : ℕ) (rows : List AppliedBatch)
    → str_eq batch_id other ≡ false
    → row_count (batch_is other) rows ≡ 0
    → row_count (batch_is other) (remember_batch batch_id now rows) ≡ 0
unfolding remember_batch
remembers-other batch_id other now rows differ gone =
    let new : AppliedBatch = record {
      rowid = suc (last_rowid rows);
      batch_id = batch_id;
      applied_at = now;
    } in
    let kept = delete (stale_batch batch_id now) (rows ++ new ∷ []) in
    ground (
      arith,
      row_count-delete-le (batch_is other) (surplus_batch batch_id (last_rowid kept)) kept,
      row_count-delete-le (batch_is other) (stale_batch batch_id now) (rows ++ new ∷ []),
      row_count-snoc (batch_is other) new rows,
      differ,
    )
