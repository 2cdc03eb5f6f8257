-- ===== src/Traffic/Collector/Completion.antt =====
-- A collection that is not interrupted: `collect` of hy2panel/accounting.py counts all of its round
-- in the ledger.
use hysteria2_panel.Prelude.{
  ℕ, All, ◌≡◌, refl, sym, ◌∙◌, ap, subst, ◌+◌, ◌≤◌, String, Bool, true, false, not, ◌||◌, Option,
  none, some, List, [], ◌∷◌, arith, if◌then◌else◌, if_cases,
}
use hysteria2_panel.Traffic.Batches.{Traffic}
use hysteria2_panel.Traffic.Totals.{bytes_in}
use hysteria2_panel.Traffic.Collector.{
  Pending, Journal, Machine, Round, Sample, save, saved, stop, applied, apply_pending, cleared,
  forget_fresh, recover, recover_from, set_fresh, has_batch, can_write, journal_of, start_round,
  round_of, pending_of, same_endpoints, save_round, end_round, collect_round, collect,
  valid_counters, sample_all, batch_result,
}
use hysteria2_panel.Traffic.Collector.Samples.{
  level, retired_all, all_unique, UniqueNames, bytes-sample_all,
}
use hysteria2_panel.Traffic.Collector.Ledger.{
  Ledger, balance, waiting, is_pending, recover-Recovered,
}
use hysteria2_panel.Traffic.Collector.Crashes.{pending_of-waiting}

module _ {S : Type 0} (L : Ledger S) (fits : Journal → Bool) where
  -- The ledger applies a batch, if there is one, instead of raising.
  abbrev pub Accepted : Option Pending → Machine S → Type 0
  Accepted pending m =
      (p : Pending) → pending ≡ some p → (s : S) × (batch_result L.apply_batch p m ≡ some s)

  -- The journals of the round fit, with the batch and without it.
  pub record RoundFits (r : Round) (id : String) (at : ℕ) : Type 0 where
    pub saves : fits (journal_of r (pending_of id at r.merged)) ≡ true
    pub clears : fits (cleared (journal_of r (pending_of id at r.merged))) ≡ true

  -- The run lives after at most `n` durable writes.
  record Spent (n : ℕ) (m m' : Machine S) : Type 0 where
    lives : m'.lives ≡ true
    writes : m.writes_left ≤ m'.writes_left + n

  save-saved :
      (j : Journal) (m : Machine S) → fits j ≡ true → can_write m ≡ true → save fits j m ≡ saved j m
  unfolding save
  save-saved j m f h = rw f (rw h refl)

  apply_pending-applied :
      (p : Pending) (m : Machine S)
      → (s : S) × (batch_result L.apply_batch p m ≡ some s)
      → can_write m ≡ true
      → (s : S) × (apply_pending L.apply_batch p m ≡ applied s m)
  unfolding apply_pending
  apply_pending-applied p m (s, e) h = (s, rw e (rw h refl))

  recover_from-Spent :
      (pending : Option Pending) (m : Machine S)
      → m.lives ≡ true
      → 2 ≤ m.writes_left
      → fits (cleared m.journal) ≡ true
      → Accepted pending m
      → Spent 2 m (recover_from L.apply_batch fits pending m)
  recover_from-Spent none m h w f a = record { lives = h; writes = omega arith }
  recover_from-Spent (some p) m h w f a =
      let (s, e) = apply_pending-applied p m (a p refl) (ground arith) in
      let path =
        ap (λ x. save fits (cleared m.journal) x) e
        ∙ save-saved (cleared m.journal) (applied s m) f (ground arith) in
      subst (λ x. Spent 2 m (forget_fresh x)) (sym path)
        (record { lives = h; writes = omega arith })

  recover-Spent :
      (m : Machine S)
      → m.lives ≡ true
      → 2 ≤ m.writes_left
      → fits (cleared m.journal) ≡ true
      → Accepted m.journal.pending m
      → Spent 2 m (recover L.apply_batch fits m)
  unfolding recover
  recover-Spent m h w f a = recover_from-Spent m.journal.pending m h w f a

  -- The run lives, nothing is pending, and the ledger has counted the deltas of the round.
  record Finished (r : Round) (bytes : ℕ) (m : Machine S) : Type 0 where
    lives : m.lives ≡ true
    none_pending : m.journal.pending ≡ none
    counts : L.counted m.ledger ≡ bytes + bytes_in r.merged

  settled : (m : Machine S) → m.journal.pending ≡ none → balance L fits m ≡ L.counted m.ledger
  settled m e = ap (λ x. L.counted m.ledger + waiting L fits x m.ledger) e ∙ omega arith

  nothing_merged :
      (id : String) (at : ℕ) (merged : Traffic) (s : S)
      → L.knows id s ≡ false
      → has_batch (pending_of id at merged) ≡ false
      → bytes_in merged ≡ 0
  nothing_merged id at [] s h f = sym (pending_of-waiting L fits id at [] s h)
  nothing_merged id at (e ∷ merged) s h f = absurd (cc)

  saved-Finished :
      (r : Round) (bytes : ℕ) (m : Machine S)
      → m.lives ≡ true
      → 2 ≤ m.writes_left
      → fits (cleared m.journal) ≡ true
      → Accepted m.journal.pending m
      → balance L fits m ≡ bytes + bytes_in r.merged
      → Finished r bytes (recover L.apply_batch fits m)
  saved-Finished r bytes m h w f a e =
      let R = recover-Recovered L fits m in
      let N = recover-Spent m h w f a in
      let clear = R.none_pending N.lives in
      record {
        lives = N.lives;
        none_pending = clear;
        counts = sym (settled (recover L.apply_batch fits m) clear) ∙ R.bytes ∙ e;
      }

  save_round-Finished :
      (r : Round) (id : String) (at : ℕ) (m : Machine S)
      → m.lives ≡ true
      → 3 ≤ m.writes_left
      → m.journal.pending ≡ none
      → L.knows id m.ledger ≡ false
      → RoundFits r id at
      → Accepted (pending_of id at r.merged) (set_fresh (pending_of id at r.merged) m)
      → Finished r
          (L.counted m.ledger)
          (save_round L.apply_batch fits r (pending_of id at r.merged) m)
  save_round-Finished r id at m h w e new fit a =
      let pending = pending_of id at r.merged in
      let j = journal_of r pending in
      if_cases (Finished r (L.counted m.ledger))
        (has_batch pending || not (same_endpoints r.endpoints m.journal.endpoints))
        (recover L.apply_batch fits (save fits j (set_fresh pending m))) m
        (λ _.
          subst (λ x. Finished r (L.counted m.ledger) (recover L.apply_batch fits x))
            (sym (save-saved j (set_fresh pending m) fit.saves (ground arith)))
            (saved-Finished r (L.counted m.ledger) (saved j (set_fresh pending m)) h (omega arith)
              fit.clears a
              (ap (λ x. L.counted m.ledger + x)
                (pending_of-waiting L fits id at r.merged m.ledger new))))
        (λ f. record {
          lives = h;
          none_pending = e;
          counts = omega (arith, nothing_merged id at r.merged m.ledger new (ground arith));
        })

  end_round-works : (failed : Bool) (m : Machine S) → failed ≡ false → end_round failed m ≡ m
  end_round-works failed m e = rw e refl

  collect_round-Finished :
      (r : Round) (id : String) (at : ℕ) (m : Machine S)
      → m.lives ≡ true
      → 3 ≤ m.writes_left
      → m.journal.pending ≡ none
      → L.knows id m.ledger ≡ false
      → r.failed ≡ false
      → valid_counters r.merged ≡ true
      → RoundFits r id at
      → Accepted (pending_of id at r.merged) (set_fresh (pending_of id at r.merged) m)
      → Finished r (L.counted m.ledger) (collect_round L.apply_batch fits id at r m)
  collect_round-Finished r id at m h w e new works valid fit a =
      let run = save_round L.apply_batch fits r (pending_of id at r.merged) m in
      if_cases (Finished r (L.counted m.ledger)) (not m.lives) m
        (if valid_counters r.merged then end_round r.failed run else stop m)
        (λ f. absurd (ground arith))
        (λ _.
          if_cases (Finished r (L.counted m.ledger)) (valid_counters r.merged)
            (end_round r.failed run) (stop m)
            (λ _.
              subst (Finished r (L.counted m.ledger)) (sym (end_round-works r.failed run works))
                (save_round-Finished r id at m h w e new fit a))
            (λ f. absurd (ground arith)))

  collect-Finished :
      (samples : List Sample) (id : String) (at : ℕ) (m : Machine S)
      → m.lives ≡ true
      → 5 ≤ m.writes_left
      → L.knows id m.ledger ≡ false
      → is_pending L fits id m ≡ false
      → (round_of samples m).failed ≡ false
      → valid_counters (round_of samples m).merged ≡ true
      → fits (cleared m.journal) ≡ true
      → RoundFits (round_of samples m) id at
      → Accepted m.journal.pending m
      → Accepted
          (pending_of id at (round_of samples m).merged)
          (set_fresh (pending_of id at (round_of samples m).merged) (recover L.apply_batch fits m))
      → Finished
          (round_of samples m)
          (balance L fits m)
          (collect L.apply_batch fits samples id at m)
  unfolding collect
  collect-Finished samples id at m h w new p works valid clears fit old fresh =
      let m1 = recover L.apply_batch fits m in
      let R = recover-Recovered L fits m in
      let N = recover-Spent m h (omega arith) clears old in
      let clear = R.none_pending N.lives in
      let same = ap (λ x. sample_all samples (start_round x)) R.endpoints in
      subst
        (λ x.
          Finished (round_of samples m) x
            (collect_round L.apply_batch fits id at (round_of samples m1) m1))
        (sym (settled m1 clear) ∙ R.bytes)
        (subst
          (λ r.
            Finished r (L.counted m1.ledger)
              (collect_round L.apply_batch fits id at (round_of samples m1) m1))
          same
          (collect_round-Finished (round_of samples m1) id at m1 N.lives (omega (arith, N.writes))
            clear (R.still_new id new p) (ap (λ x. x.failed) same ∙ works)
            (ap (λ x. valid_counters x.merged) same ∙ valid)
            (subst (λ r. RoundFits r id at) (sym same) fit)
            (subst
              (λ r. Accepted (pending_of id at r.merged) (set_fresh (pending_of id at r.merged) m1))
              (sym same) fresh)))

  -- Without a failure, a collection counts its round: where the journals to be written fit, the
  -- ledger applies the pending batch and that of the round, the process lives for five more durable
  -- writes, no client fails and the deltas are valid counters, the run does not end early, nothing
  -- is pending, and the ledger has counted what the ledger and the journal held and what the
  -- counters of the servers have grown by, where a server that has been restarted counts from 0.
  -- The names of each sample and of each checkpoint are unique, and the id of the batch is new.
  pub collection_is_counted :
      (samples : List Sample) (id : String) (at : ℕ) (m : Machine S)
      → m.lives ≡ true
      → 5 ≤ m.writes_left
      → all_unique samples ≡ true
      → All UniqueNames m.journal.endpoints
      → L.knows id m.ledger ≡ false
      → is_pending L fits id m ≡ false
      → (round_of samples m).failed ≡ false
      → valid_counters (round_of samples m).merged ≡ true
      → fits (cleared m.journal) ≡ true
      → RoundFits (round_of samples m) id at
      → Accepted m.journal.pending m
      → Accepted
          (pending_of id at (round_of samples m).merged)
          (set_fresh (pending_of id at (round_of samples m).merged) (recover L.apply_batch fits m))
      → ((collect L.apply_batch fits samples id at m).lives ≡ true)
        × ((collect L.apply_batch fits samples id at m).journal.pending ≡ none)
        × (L.counted (collect L.apply_batch fits samples id at m).ledger + level m.journal.endpoints
            ≡ balance L fits m
              + (level (round_of samples m).endpoints
                  + retired_all samples (start_round m.journal.endpoints)))
  collection_is_counted samples id at m h w u all new p works valid clears fit old fresh =
      let F = collect-Finished samples id at m h w new p works valid clears fit old fresh in
      (
        F.lives,
        F.none_pending,
        omega (
          arith,
          F.counts,
          bytes-sample_all samples (start_round m.journal.endpoints) u all,
          pending_of-waiting L fits id at [] m.ledger new,
        ),
      )
