-- ===== src/Nodes/Nonce/Replay.antt =====
-- How long a nonce is remembered.
use hysteria2_panel.Prelude.{
  sym, subst, ℕ, suc, ◌+◌, ◌≤◌, ◌<◌, ◌≡◌, refl, Bool, true, false, ◌⊎◌, inl, inr, List, [], ◌∷◌,
  ◌++◌, arith, ltb, leb, ◌&&◌, ◌==◌, length, All, row_count, delete, Result, ok, err, Bool-cases,
  if_cases, &&→both, leb→le, row_count-and-le, row_count-snoc, row_count-delete-le, str_eq_refl,
  str_eq→eq, str_eq,
}
use hysteria2_panel.Nodes.Row.{NonceRow}
use hysteria2_panel.Nodes.Database.{Error}
use hysteria2_panel.Nodes.Nonce.{same_use, same_key, ahead, keep_newest, consume_row}

-- The table after one request: a rejected one leaves it alone.
abbrev pub after : Result Error (List NonceRow) → List NonceRow → List NonceRow
after (ok table) _ = table
after (err _) table = table

unfoldable pub serve : List NonceRow → List NonceRow → List NonceRow
serve [] table = table
serve (row ∷ rows) table = serve rows (after (consume_row row table) table)

module _ (row : NonceRow) where
  -- The table holds the key of `row`, accepted at the time of `row`, with at most `k` rows of its
  -- use behind it and no later one in front.
  abbrev Held : ℕ → List NonceRow → Type 0
  Held k [] = ⊥
  Held k (x ∷ xs) =
      ((same_key row x ≡ true)
        × (x.accepted_at ≡ row.accepted_at)
        × (row_count (same_use row) xs ≤ k))
      ⊎ ((x.accepted_at ≤ row.accepted_at) × Held k xs)

  later : List NonceRow → ℕ
  later = row_count (λ x. same_use row x && ltb row.accepted_at x.accepted_at)

  Held-key : (k : ℕ) (xs : List NonceRow) → Held k xs → 0 < row_count (same_key row) xs
  unfolding row_count
  Held-key k [] h = absurd h
  Held-key k (x ∷ xs) (inl h) = ground arith
  Held-key k (x ∷ xs) (inr h) = ground (arith, Held-key k xs h.1)

  row_count-keep_newest-le :
      (test : NonceRow → Bool) (n : ℕ) (used : NonceRow → Bool) (before xs : List NonceRow)
      → row_count test (keep_newest n used before xs) ≤ row_count test xs
  unfolding row_count keep_newest
  row_count-keep_newest-le test n used before [] = omega arith
  row_count-keep_newest-le test n used before (x ∷ xs) =
      ground (arith, row_count-keep_newest-le test n used (before ++ x ∷ []) xs)

  Held-snoc : (k : ℕ) (r : NonceRow) (xs : List NonceRow) → Held k xs → Held (suc k) (xs ++ r ∷ [])
  Held-snoc k r [] h = absurd h
  Held-snoc k r (x ∷ xs) (inl h) =
      inl (h.0, h.1, ground (arith, row_count-snoc (same_use row) r xs))
  Held-snoc k r (x ∷ xs) (inr h) = inr (h.0, Held-snoc k r xs h.1)

  Held-suc : (k : ℕ) (xs : List NonceRow) → Held k xs → Held (suc k) xs
  Held-suc k [] h = h
  Held-suc k (x ∷ xs) (inl h) = inl (h.0, h.1, omega arith)
  Held-suc k (x ∷ xs) (inr h) = inr (h.0, Held-suc k xs h.1)

  -- Rows that are more than 600 seconds old are deleted, and this one is not.
  Held-delete :
      (k now : ℕ) (xs : List NonceRow)
      → now ≤ row.accepted_at + 600
      → Held k xs
      → Held k (delete (λ r. ltb (r.accepted_at + 600) now) xs)
  unfolding delete
  Held-delete k now [] recent h = h
  Held-delete k now (x ∷ xs) recent (inl h) =
      if_cases (Held k) (ltb (x.accepted_at + 600) now) _ _ (λ e. absurd (ground arith))
        λ e. inl (
          h.0,
          h.1,
          omega (arith, row_count-delete-le (same_use row) (λ r. ltb (r.accepted_at + 600) now) xs),
        )
  Held-delete k now (x ∷ xs) recent (inr h) =
      let rest = Held-delete k now xs recent h.1 in
      if_cases (Held k) (ltb (x.accepted_at + 600) now) _ _ (λ e. rest) (λ e. inr (h.0, rest))

  -- Fewer than `n` rows behind it, and none that is later in front: the row is among the newest.
  Held-keep_newest :
      (k n : ℕ) (before xs : List NonceRow)
      → k < n
      → later before ≡ 0
      → Held k xs
      → Held k (keep_newest n (same_use row) before xs)
  unfolding keep_newest later
  Held-keep_newest k n before [] lt none h = h
  Held-keep_newest k n before (x ∷ xs) lt none (inl h) =
      let first : ahead (same_use row) before x xs < n = rw h.1 (
        omega (
          arith,
          none,
          row_count-and-le (same_use row) (λ y. leb row.accepted_at y.accepted_at) xs,
        )) in
      let rest = keep_newest n (same_use row) (before ++ x ∷ []) xs in
      if_cases (Held k) (same_use row x && leb n (ahead (same_use row) before x xs)) rest (x ∷ rest)
        (λ e. absurd (
          omega
            (arith, leb→le n (ahead (same_use row) before x xs) (&&→both (same_use row x) _ e).1)))
        λ e. inl (
          h.0,
          h.1,
          omega (
            arith,
            row_count-keep_newest-le (same_use row) n (same_use row) (before ++ x ∷ []) xs,
          ),
        )
  Held-keep_newest k n before (x ∷ xs) lt none (inr h) =
      let in_front : later (before ++ x ∷ []) ≡ 0 = ground (
        arith,
        row_count-snoc (λ y. same_use row y && ltb row.accepted_at y.accepted_at) x before,
      ) in
      let rest = Held-keep_newest k n (before ++ x ∷ []) xs lt in_front h.1 in
      if_cases (Held k) _ (keep_newest n (same_use row) (before ++ x ∷ []) xs)
        (x ∷ keep_newest n (same_use row) (before ++ x ∷ []) xs) (λ e. rest) (λ e. inr (h.0, rest))

  -- Nor do the requests of another node or purpose push the row out.
  Held-keep_other :
      (k n : ℕ) (used : NonceRow → Bool) (before xs : List NonceRow)
      → ((x : NonceRow) → same_use row x ≡ true → used x ≡ false)
      → Held k xs
      → Held k (keep_newest n used before xs)
  unfolding keep_newest
  Held-keep_other k n used before [] apart h = h
  Held-keep_other k n used before (x ∷ xs) apart (inl h) =
      if_cases (Held k) (used x && leb n (ahead used before x xs))
        (keep_newest n used (before ++ x ∷ []) xs) (x ∷ keep_newest n used (before ++ x ∷ []) xs)
        (λ e. absurd (ground (arith, apart x (&&→both (same_use row x) _ h.0).0)))
        λ e. inl (
          h.0,
          h.1,
          omega (arith, row_count-keep_newest-le (same_use row) n used (before ++ x ∷ []) xs),
        )
  Held-keep_other k n used before (x ∷ xs) apart (inr h) =
      let rest = Held-keep_other k n used (before ++ x ∷ []) xs apart h.1 in
      if_cases (Held k) _ (keep_newest n used (before ++ x ∷ []) xs)
        (x ∷ keep_newest n used (before ++ x ∷ []) xs) (λ e. rest) (λ e. inr (h.0, rest))

  same_use_sym :
      (r x : NonceRow) → same_use r row ≡ false → same_use row x ≡ true → same_use r x ≡ false
  same_use_sym r x other same = elim (Bool-cases (same_use r x)) [
    | inr e ↦ e
    | inl e ↦ ground (
      arith,
      str_eq→eq x.node_id r.node_id,
      str_eq→eq x.purpose r.purpose,
      str_eq→eq x.node_id row.node_id,
      str_eq→eq x.purpose row.purpose,
      str_eq_refl row.node_id,
      str_eq_refl row.purpose,
    )
  ]

  same_use_eq : (r : NonceRow) → same_use r row ≡ true → same_use r ≡ same_use row
  same_use_eq r same =
      let (p, q) = &&→both (str_eq row.node_id r.node_id) (str_eq row.purpose r.purpose) same in
      λ i x.
        str_eq x.node_id (sym (str_eq→eq row.node_id r.node_id p) i)
        && str_eq x.purpose (sym (str_eq→eq row.purpose r.purpose q) i)

  Held-consume :
      (k : ℕ) (r : NonceRow) (table : List NonceRow)
      → r.accepted_at ≤ row.accepted_at + 600
      → suc k < 1024
      → Held k table
      → Held (suc k) (after (consume_row r table) table)
  unfolding consume_row
  Held-consume k r table recent lt h = elim (Bool-cases (row_count (same_key r) table == 0)) [
    | inr e ↦ rw e (Held-suc k table h)
    | inl e ↦ rw e (elim (Bool-cases (same_use r row)) [
      | inl same ↦
          subst (λ used. Held (suc k) (keep_newest 1024 used [] recent_rows))
            (sym (same_use_eq r same))
            (Held-keep_newest (suc k) 1024 [] recent_rows lt (unfold later row_count in refl) kept)
      | inr other ↦
          Held-keep_other (suc k) 1024 (same_use r) [] _ (λ x. same_use_sym r x other) kept
    ])
  ]
    where
      recent_rows : List NonceRow
      recent_rows = delete (λ x. ltb (x.accepted_at + 600) r.accepted_at) (table ++ r ∷ [])

      kept : Held (suc k) recent_rows
      kept = Held-delete (suc k) r.accepted_at (table ++ r ∷ []) recent (Held-snoc k r table h)

  Held-serve :
      (k : ℕ) (rows table : List NonceRow)
      → All (λ r. r.accepted_at ≤ row.accepted_at + 600) rows
      → k + length rows < 1024
      → Held k table
      → Held (k + length rows) (serve rows table)
  unfolding serve
  Held-serve k [] table recent lt h =
      let e : k ≡ k + 0 = omega arith in subst (λ m. Held m table) e h
  Held-serve k (r ∷ rows) table recent lt h =
      let next = after (consume_row r table) table in
      let e : suc k + length rows ≡ k + suc (length rows) = omega arith in
      subst (λ m. Held m (serve rows next)) e
        (Held-serve (suc k) rows next recent.1 (omega arith)
          (Held-consume k r table recent.0 (omega arith) h))

  Held-last :
      (table : List NonceRow)
      → All (λ r. r.accepted_at ≤ row.accepted_at) table
      → Held 0 (table ++ row ∷ [])
  unfolding row_count
  Held-last [] older = inl (
    ground (arith, str_eq_refl row.node_id, str_eq_refl row.purpose, str_eq_refl row.nonce_digest),
    refl,
    omega arith,
  )
  Held-last (x ∷ xs) older = inr (older.0, Held-last xs older.1)

  Held-consumed :
      (table table' : List NonceRow)
      → All (λ r. r.accepted_at ≤ row.accepted_at) table
      → consume_row row table ≡ ok table'
      → Held 0 table'
  unfolding consume_row
  Held-consumed table table' older e = elim (Bool-cases (row_count (same_key row) table == 0)) [
    | inr used ↦ absurd (cc)
    | inl fresh ↦ subst (Held 0) (ground arith) kept
  ]
    where
      kept : Held 0 (
          keep_newest 1024
            (same_use row)
            []
            (delete (λ x. ltb (x.accepted_at + 600) row.accepted_at) (table ++ row ∷ [])))
      kept =
          Held-keep_newest 0 1024 [] _ (omega arith) (unfold later row_count in refl) (
            Held-delete 0 row.accepted_at (table ++ row ∷ []) (omega arith) (Held-last table older))

-- A request that was accepted is not accepted again: one with the same node, purpose and nonce is
-- refused at any time, after any further requests, refused ones included, of which there were
-- fewer than 1024 and none came more than 600 seconds later. No row of the table may have been
-- accepted later than the first request.
pub nonce_replay :
    (row : NonceRow) (rows table table' : List NonceRow) (now : ℕ)
    → All (λ r. r.accepted_at ≤ row.accepted_at) table
    → consume_row row table ≡ ok table'
    → All (λ r. r.accepted_at ≤ row.accepted_at + 600) rows
    → length rows < 1024
    → consume_row (record row { accepted_at = now }) (serve rows table') ≡ err Error.integrity_error
unfolding consume_row
nonce_replay row rows table table' now older accepted recent few =
    let start = Held-consumed row table table' older accepted in
    let held = Held-serve row 0 rows table' recent (omega arith) start in
    ground (arith, Held-key row (0 + length rows) (serve rows table') held)
