-- ===== src/Traffic/Collector/Crashes.antt =====
-- `collect` of hy2panel/accounting.py, wherever the process dies: each byte that the counters of the
-- servers have grown by is counted once, in the ledger or in the journal.
use hysteria2_panel.Prelude.{
  ℕ, All, ◌≡◌, refl, ◌∙◌, ap, ◌+◌, String, Bool, true, false, not, ◌||◌, none, List, [], ◌∷◌, inl,
  inr, ◌⊎◌, arith, if◌then◌else◌, if_cases,
}
use hysteria2_panel.Traffic.Batches.{Traffic}
use hysteria2_panel.Traffic.Totals.{bytes_in}
use hysteria2_panel.Traffic.Collector.{
  Journal, Machine, Round, Sample, stop, save, recover, set_fresh, has_batch, journal_of,
  start_round, round_of, pending_of, same_endpoints, save_round, end_round, collect_round, collect,
  valid_counters, sample_all,
}
use hysteria2_panel.Traffic.Collector.Samples.{
  level, retired_all, all_unique, UniqueNames, bytes-sample_all,
}
use hysteria2_panel.Traffic.Collector.Ledger.{
  Ledger, waiting, balance, is_pending, save-elim, recover-Recovered,
}

module _ {S : Type 0} (L : Ledger S) (fits : Journal → Bool) where
  -- Nothing is counted, and the checkpoints are those of before.
  pub record Kept (m m' : Machine S) : Type 0 where
    pub endpoints : m'.journal.endpoints ≡ m.journal.endpoints
    pub bytes : balance L fits m' ≡ balance L fits m

  -- The checkpoints are those of the round, and its deltas are counted.
  pub record Saved (r : Round) (m m' : Machine S) : Type 0 where
    pub endpoints : m'.journal.endpoints ≡ r.endpoints
    pub bytes : balance L fits m' ≡ balance L fits m + bytes_in r.merged

  -- The checkpoints are those of the round. What they have grown by, and what the checkpoints that
  -- they replace after a restart had counted, is counted.
  pub record Advanced (samples : List Sample) (m m' : Machine S) : Type 0 where
    pub endpoints : m'.journal.endpoints ≡ (round_of samples m).endpoints
    pub bytes :
        balance L fits m' + level m.journal.endpoints
        ≡ balance L fits m
          + (level m'.journal.endpoints + retired_all samples (start_round m.journal.endpoints))

  abbrev pub Outcome : Round → Machine S → Machine S → Type 0
  Outcome r m m' = Kept m m' ⊎ Saved r m m'

  pub pending_of-waiting :
      (id : String) (at : ℕ) (merged : Traffic) (s : S)
      → L.knows id s ≡ false
      → waiting L fits (pending_of id at merged) s ≡ bytes_in merged
  pending_of-waiting id at [] s h = refl
  pending_of-waiting id at (e ∷ merged) s h = ground arith

  -- A recovery after a step
  then_recover :
      (r : Round) (m m' : Machine S) → Outcome r m m' → Outcome r m (recover L.apply_batch fits m')
  then_recover r m m' (inl k) =
      let R = recover-Recovered L fits m' in
      inl (record { endpoints = R.endpoints ∙ k.endpoints; bytes = R.bytes ∙ k.bytes })
  then_recover r m m' (inr k) =
      let R = recover-Recovered L fits m' in
      inr (record { endpoints = R.endpoints ∙ k.endpoints; bytes = R.bytes ∙ k.bytes })

  save_round-Outcome :
      (r : Round) (id : String) (at : ℕ) (m : Machine S)
      → m.journal.pending ≡ none
      → L.knows id m.ledger ≡ false
      → Outcome r m (save_round L.apply_batch fits r (pending_of id at r.merged) m)
  save_round-Outcome r id at m e h =
      let pending = pending_of id at r.merged in
      let j = journal_of r pending in
      if_cases (Outcome r m)
        (has_batch pending || not (same_endpoints r.endpoints m.journal.endpoints))
        (recover L.apply_batch fits (save fits j (set_fresh pending m))) m
        (λ _. then_recover r m (save fits j (set_fresh pending m)) (
          save-elim L fits (Outcome r m) j (set_fresh pending m)
            (inl (record { endpoints = refl; bytes = refl }))
            (λ _ _. inr (record { endpoints = refl; bytes = saved_bytes }))))
        (λ _. inl (record { endpoints = refl; bytes = refl }))
    where
      saved_bytes :
          L.counted m.ledger + waiting L fits (pending_of id at r.merged) m.ledger
          ≡ balance L fits m + bytes_in r.merged
      saved_bytes = omega (
        arith,
        pending_of-waiting id at r.merged m.ledger h,
        ap (λ x. waiting L fits x m.ledger) e,
      )

  end_round-Outcome :
      (r : Round) (failed : Bool) (m m' : Machine S)
      → Outcome r m m'
      → Outcome r m (end_round failed m')
  end_round-Outcome r true m m' (inl k) = inl (record { endpoints = k.endpoints; bytes = k.bytes })
  end_round-Outcome r true m m' (inr k) = inr (record { endpoints = k.endpoints; bytes = k.bytes })
  end_round-Outcome r false m m' k = k

  collect_round-Outcome :
      (r : Round) (id : String) (at : ℕ) (m : Machine S)
      → (m.lives ≡ true → m.journal.pending ≡ none)
      → L.knows id m.ledger ≡ false
      → Outcome r m (collect_round L.apply_batch fits id at r m)
  collect_round-Outcome r id at m e h =
      if_cases (Outcome r m) (not m.lives) m
        (if valid_counters r.merged
          then end_round r.failed (save_round L.apply_batch fits r (pending_of id at r.merged) m)
          else stop m)
        (λ _. inl (record { endpoints = refl; bytes = refl }))
        (λ f.
          if_cases (Outcome r m) (valid_counters r.merged)
            (end_round r.failed (save_round L.apply_batch fits r (pending_of id at r.merged) m))
            (stop m)
            (λ _.
              end_round-Outcome r r.failed m
                (save_round L.apply_batch fits r (pending_of id at r.merged) m)
                (save_round-Outcome r id at m (e (ground arith)) h))
            (λ _. inl (record { endpoints = refl; bytes = refl })))

  -- A collection, whether it returns, raises an exception or dies at any of its durable writes,
  -- keeps the checkpoints and the bytes of the machine in ledger and journal, or it has the
  -- checkpoints of its round of samples: then the bytes in ledger and journal have grown by exactly
  -- what the counters of the servers have grown by, where a server that has been restarted counts
  -- from 0. The names of each sample and of each checkpoint are unique, and the id of the batch is
  -- new: the ledger does not know it, and it is not pending.
  pub bytes_are_counted_once :
      (samples : List Sample) (id : String) (at : ℕ) (m : Machine S)
      → all_unique samples ≡ true
      → All UniqueNames m.journal.endpoints
      → L.knows id m.ledger ≡ false
      → is_pending L fits id m ≡ false
      → Kept m (collect L.apply_batch fits samples id at m)
        ⊎ Advanced samples m (collect L.apply_batch fits samples id at m)
  unfolding collect
  bytes_are_counted_once samples id at m u all h p =
      let m1 = recover L.apply_batch fits m in
      let R = recover-Recovered L fits m in
      advance (collect_round L.apply_batch fits id at (round_of samples m1) m1)
        (collect_round-Outcome (round_of samples m1) id at m1 R.none_pending (R.still_new id h p))
    where
      advance :
          (m' : Machine S)
          → Outcome
              (round_of samples (recover L.apply_batch fits m))
              (recover L.apply_batch fits m)
              m'
          → Kept m m' ⊎ Advanced samples m m'
      advance m' (inl k) =
          let R = recover-Recovered L fits m in
          inl (record { endpoints = k.endpoints ∙ R.endpoints; bytes = k.bytes ∙ R.bytes })
      advance m' (inr k) =
          let R = recover-Recovered L fits m in
          let same = ap (λ x. sample_all samples (start_round x)) R.endpoints in
          inr (record {
            endpoints = k.endpoints ∙ ap (λ x. x.endpoints) same;
            bytes = omega (
              arith,
              k.bytes,
              R.bytes,
              ap (λ x. bytes_in x.merged) same,
              ap (λ x. level x.endpoints) same,
              ap level k.endpoints,
              bytes-sample_all samples (start_round m.journal.endpoints) u all,
              pending_of-waiting id at [] m.ledger h,
            );
          })
