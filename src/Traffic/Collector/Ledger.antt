-- ===== src/Traffic/Collector/Ledger.antt =====
-- What the ledger of the collector promises and what `recover` of
-- hy2panel/accounting.py keeps: a byte of a pending batch is counted by the ledger or still waits in
-- the journal, wherever the process dies.
use hysteria2_panel.Prelude.{
  ℕ, ◌≡◌, refl, sym, ◌∙◌, ap, ◌+◌, String, Bool, true, false, ◌&&◌, Option, none, some, arith,
  maybe, if◌then◌else◌, if_cases, str_eq,
}
use hysteria2_panel.Traffic.Batches.{Traffic}
use hysteria2_panel.Traffic.Collector.{
  Pending, Journal, Machine, stop, can_write, saved, applied, save, batch_result, apply_pending,
  cleared, is_fresh, forget_fresh, recover_from, recover,
}
use hysteria2_panel.Traffic.Totals.{bytes_in}

-- A ledger that counts a batch once while it knows it: `knows` are the batches that it remembers, of
-- which it may forget old ones, and `counted` are the bytes of the machine. That of the panel is in
-- Collector/Panel.
pub record Ledger (S : Type 0) : Type 0 where
  pub apply_batch : String → Traffic → ℕ → Bool → S → Option S
  pub knows : String → S → Bool
  pub counted : S → ℕ
  pub apply_batch-knows :
      (id : String) (traffic : Traffic) (at : ℕ) (fresh : Bool) (s s' : S)
      → apply_batch id traffic at fresh s ≡ some s'
      → knows id s' ≡ true
  pub apply_batch-other :
      (id : String) (traffic : Traffic) (at : ℕ) (fresh : Bool) (s s' : S) (other : String)
      → apply_batch id traffic at fresh s ≡ some s'
      → str_eq id other ≡ false
      → knows other s ≡ false
      → knows other s' ≡ false
  pub apply_batch-counts :
      (id : String) (traffic : Traffic) (at : ℕ) (fresh : Bool) (s s' : S)
      → apply_batch id traffic at fresh s ≡ some s'
      → counted s' ≡ counted s + (if knows id s then 0 else bytes_in traffic)

module _ {S : Type 0} (L : Ledger S) (fits : Journal → Bool) where
  -- What the ledger has not counted yet of the pending batch
  abbrev pub waiting : Option Pending → S → ℕ
  waiting none s = 0
  waiting (some p) s = if L.knows p.batch_id s then 0 else bytes_in p.traffic

  -- The bytes of the machine in the ledger and in the journal
  abbrev pub balance : Machine S → ℕ
  balance m = L.counted m.ledger + waiting m.journal.pending m.ledger

  pub save-elim {κ} :
      (P : Machine S → Type κ) (j : Journal) (m : Machine S)
      → P (stop m)
      → (fits j ≡ true → can_write m ≡ true → P (saved j m))
      → P (save fits j m)
  unfolding save
  save-elim P j m failed done =
      if_cases P (fits j && can_write m) (saved j m) (stop m)
        (λ t. done (ground arith) (ground arith)) (λ _. failed)

  apply_pending-elim {κ} :
      (P : Machine S → Type κ) (p : Pending) (m : Machine S)
      → P (stop m)
      → ((s : S) → batch_result L.apply_batch p m ≡ some s → can_write m ≡ true → P (applied s m))
      → P (apply_pending L.apply_batch p m)
  unfolding apply_pending
  apply_pending-elim P p m failed done = cases (batch_result L.apply_batch p m) refl
    where
      cases :
          (result : Option S)
          → batch_result L.apply_batch p m ≡ result
          → P (maybe result (stop m) (λ s. if can_write m then applied s m else stop m))
      cases none e = failed
      cases (some s) e =
          if_cases P (can_write m) (applied s m) (stop m) (λ t. done s e t) (λ _. failed)

  abbrev pub is_pending : String → Machine S → Bool
  is_pending id m = maybe m.journal.pending false (λ p. str_eq p.batch_id id)

  -- A run has kept the checkpoints and the bytes, it has applied no other batch than the pending one,
  -- and nothing is pending if it lives.
  pub record Recovered (m m' : Machine S) : Type 0 where
    pub endpoints : m'.journal.endpoints ≡ m.journal.endpoints
    pub bytes : balance m' ≡ balance m
    pub still_new :
        (id : String)
        → L.knows id m.ledger ≡ false
        → is_pending id m ≡ false
        → L.knows id m'.ledger ≡ false
    pub none_pending : m'.lives ≡ true → m'.journal.pending ≡ none

  applied-known :
      (p : Pending) (m : Machine S) (s : S)
      → batch_result L.apply_batch p m ≡ some s
      → L.knows p.batch_id s ≡ true
  applied-known p m s e =
      L.apply_batch-knows p.batch_id p.traffic p.observed_at (is_fresh m.fresh_batch_id p.batch_id)
        m.ledger s e

  applied-bytes :
      (p : Pending) (m : Machine S) (s : S)
      → batch_result L.apply_batch p m ≡ some s
      → L.counted s ≡ L.counted m.ledger + waiting (some p) m.ledger
  applied-bytes p m s e =
      L.apply_batch-counts p.batch_id p.traffic p.observed_at (is_fresh m.fresh_batch_id p.batch_id)
        m.ledger s e

  applied-new :
      (p : Pending) (m : Machine S) (s : S)
      → batch_result L.apply_batch p m ≡ some s
      → (id : String) → L.knows id m.ledger ≡ false
      → str_eq p.batch_id id ≡ false
      → L.knows id s ≡ false
  applied-new p m s e id h f =
      L.apply_batch-other p.batch_id p.traffic p.observed_at (is_fresh m.fresh_batch_id p.batch_id)
        m.ledger s id e f h

  Recovered-stopped :
      (p : Pending) (m : Machine S)
      → Recovered m (forget_fresh (save fits (cleared m.journal) (stop m)))
  Recovered-stopped p m =
      save-elim (λ x. Recovered m (forget_fresh x)) (cleared m.journal) (stop m)
        (record {
          endpoints = refl;
          bytes = refl;
          still_new = λ id h f. h;
          none_pending = λ h. absurd (cc);
        })
        (λ _ h. absurd (ground arith))

  Recovered-applied :
      (p : Pending) (m : Machine S) (s : S)
      → m.journal.pending ≡ some p
      → batch_result L.apply_batch p m ≡ some s
      → Recovered m (forget_fresh (save fits (cleared m.journal) (applied s m)))
  Recovered-applied p m s q e =
      save-elim (λ x. Recovered m (forget_fresh x)) (cleared m.journal) (applied s m)
        (record {
          endpoints = refl;
          bytes = ap (λ x. L.counted s + waiting x s) q ∙ counted_now ∙ sym before;
          still_new = still_new;
          none_pending = λ h. absurd (cc);
        })
        (λ _ _. record {
          endpoints = refl;
          bytes = omega (arith, applied-bytes p m s e, before);
          still_new = still_new;
          none_pending = λ _. refl;
        })
    where
      before : balance m ≡ L.counted m.ledger + waiting (some p) m.ledger
      before = ap (λ x. L.counted m.ledger + waiting x m.ledger) q

      counted_now :
          L.counted s + waiting (some p) s ≡ L.counted m.ledger + waiting (some p) m.ledger
      counted_now = ground (arith, applied-known p m s e, applied-bytes p m s e)

      still_new :
          (id : String)
          → L.knows id m.ledger ≡ false
          → is_pending id m ≡ false
          → L.knows id s ≡ false
      still_new id h f =
          applied-new p m s e id h (sym (ap (λ x. maybe x false (λ y. str_eq y.batch_id id)) q) ∙ f)

  recover_from-Recovered :
      (pending : Option Pending) (m : Machine S)
      → m.journal.pending ≡ pending
      → Recovered m (recover_from L.apply_batch fits pending m)
  recover_from-Recovered none m e = record {
    endpoints = refl;
    bytes = refl;
    still_new = λ id h f. h;
    none_pending = λ _. e;
  }
  recover_from-Recovered (some p) m e =
      apply_pending-elim (λ x. Recovered m (forget_fresh (save fits (cleared m.journal) x))) p m
        (Recovered-stopped p m) (λ s q _. Recovered-applied p m s e q)

  -- Wherever the process dies, `recover` keeps the bytes.
  pub recover-Recovered : (m : Machine S) → Recovered m (recover L.apply_batch fits m)
  unfolding recover
  recover-Recovered m = recover_from-Recovered m.journal.pending m refl
