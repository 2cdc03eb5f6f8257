-- ===== src/Traffic/Collector/Panel.antt =====
-- The collector over the database of the panel: `_apply_local_traffic_batch` of hysteria2_panel.py
-- applies its batches by `apply_traffic_batch`, and the ledger is the table of days of the machine.
use hysteria2_panel.Prelude.{
  ℕ, suc, ◌≡◌, refl, ap, ◌+◌, ◌≤◌, ◌⊎◌, String, Bool, true, false, Option, none, some, List, arith,
  Result, ok, err, All, ltb, maybe, row_count, if◌then◌else◌, str_eq_refl,
}
use hysteria2_panel.Nodes.UsageRows.{local}
use hysteria2_panel.Nodes.Database.{Database, Error, Tx}
use hysteria2_panel.Traffic.Batches.{Traffic, Source, Times, batch_is, apply_traffic_batch}
use hysteria2_panel.Traffic.Replays.{apply_batch-remembers}
use hysteria2_panel.Traffic.Replays.Others.{apply_batch-other}
use hysteria2_panel.Traffic.Budgets.{total_of}
use hysteria2_panel.Traffic.Totals.{OneADay, bytes_in}
use hysteria2_panel.Traffic.Totals.Local.{batch_bytes_are_counted}
use hysteria2_panel.Traffic.Collector.{
  Journal, Machine, Sample, set_fresh, pending_of, start_round, round_of, recover, collect, cleared,
  valid_counters,
}
use hysteria2_panel.Traffic.Collector.Samples.{level, retired_all, all_unique, UniqueNames}
use hysteria2_panel.Traffic.Collector.Ledger.{Ledger, balance, is_pending}
use hysteria2_panel.Traffic.Collector.Crashes.{Kept, Advanced, bytes_are_counted_once}
use hysteria2_panel.Traffic.Collector.Completion.{Accepted, RoundFits, collection_is_counted}

-- The database, whose table of days has one row for a machine and a day, and the number of calls that
-- it has answered
pub record Panel : Type 0 where
  pub tables : Database
  pub one_a_day : OneADay tables.daily
  pub calls : ℕ

-- `str.casefold`; the random ids that a call draws and what the clock tells it; the identity of the
-- panel's own server
module _ (casefold : String → String) (fresh_id : ℕ → ℕ → String) (wall_clock : ℕ → ℕ)
    (origin_id name : String) where
  abbrev pub local_source : Source
  local_source = record { origin_id = origin_id; kind = local; name = name }

  abbrev pub local_times : ℕ → ℕ → Bool → Times
  local_times calls at fresh = record {
    now = wall_clock calls;
    observed_at = some at;
    accounting_at = some (wall_clock calls);
    fresh_local = fresh;
  }

  abbrev pub local_call : String → Traffic → ℕ → Bool → Panel → Tx Bool
  local_call id traffic at fresh p =
      apply_traffic_batch casefold (fresh_id p.calls) id traffic local_source
        (local_times p.calls at fresh) p.tables

  pub OneADay-after :
      (id : String) (traffic : Traffic) (at : ℕ) (fresh : Bool) (p : Panel) (x : Bool)
      (d : Database)
      → local_call id traffic at fresh p ≡ ok (x, d)
      → OneADay d.daily
  OneADay-after id traffic at fresh p x d e =
      (batch_bytes_are_counted casefold (fresh_id p.calls) id traffic local_source
        (local_times p.calls at fresh) origin_id p.tables d x p.one_a_day e).1

  -- The database after a call that did not raise
  after_call :
      (id : String) (traffic : Traffic) (at : ℕ) (fresh : Bool) (p : Panel)
      (r : Result Error (Bool × Database))
      → local_call id traffic at fresh p ≡ r
      → Option Panel
  after_call id traffic at fresh p (ok (x, d)) e = some (record {
    tables = d;
    one_a_day = OneADay-after id traffic at fresh p x d e;
    calls = suc p.calls;
  })
  after_call id traffic at fresh p (err _) e = none

  -- `_apply_local_traffic_batch`; `none` is an exception.
  unfoldable pub apply_local_traffic_batch : String → Traffic → ℕ → Bool → Panel → Option Panel
  unfolding after_call
  apply_local_traffic_batch id traffic at fresh p =
      after_call id traffic at fresh p (local_call id traffic at fresh p) refl

  after_call-ok :
      (id : String) (traffic : Traffic) (at : ℕ) (fresh : Bool) (p p' : Panel)
      (r : Result Error (Bool × Database)) (e : local_call id traffic at fresh p ≡ r)
      → after_call id traffic at fresh p r e ≡ some p'
      → (x : Bool) × (r ≡ ok (x, p'.tables))
  unfolding after_call
  after_call-ok id traffic at fresh p p' (ok (x, d)) e h =
      (x, ap (λ o. ok (x, maybe o p'.tables (λ (q : Panel). q.tables))) h)
  after_call-ok id traffic at fresh p p' (err x) e h = absurd (cc)

  pub apply_local-ok :
      (id : String) (traffic : Traffic) (at : ℕ) (fresh : Bool) (p p' : Panel)
      → apply_local_traffic_batch id traffic at fresh p ≡ some p'
      → (x : Bool) × (local_call id traffic at fresh p ≡ ok (x, p'.tables))
  unfolding apply_local_traffic_batch
  apply_local-ok id traffic at fresh p p' h =
      after_call-ok id traffic at fresh p p' (local_call id traffic at fresh p) refl h

  abbrev pub knows_batch : String → Panel → Bool
  knows_batch id p = ltb 0 (row_count (batch_is id) p.tables.applied_batches)

  -- The bytes of the machine in the table of days
  abbrev pub machine_bytes : Panel → ℕ
  machine_bytes p = total_of origin_id p.tables.daily

  pub apply_local-counts :
      (id : String) (traffic : Traffic) (at : ℕ) (fresh : Bool) (p p' : Panel)
      → apply_local_traffic_batch id traffic at fresh p ≡ some p'
      → machine_bytes p' ≡ machine_bytes p + (if knows_batch id p then 0 else bytes_in traffic)
  apply_local-counts id traffic at fresh p p' h =
      let (x, e) = apply_local-ok id traffic at fresh p p' h in
      let (new, one, total) =
        batch_bytes_are_counted casefold (fresh_id p.calls) id traffic local_source
          (local_times p.calls at fresh) origin_id p.tables p'.tables x p.one_a_day e in
      ground (arith, new, total, str_eq_refl origin_id)

  -- The database of the panel is a ledger.
  abbrev pub panel_ledger : Ledger Panel
  panel_ledger = record {
    apply_batch = apply_local_traffic_batch;
    knows = knows_batch;
    counted = machine_bytes;
    apply_batch-knows = λ id traffic at fresh p p' h.
        let (x, e) = apply_local-ok id traffic at fresh p p' h in
        apply_batch-remembers casefold (fresh_id p.calls) id traffic local_source
          (local_times p.calls at fresh) p.tables p'.tables x e;
    apply_batch-other = λ id traffic at fresh p p' other h differ k.
        let (x, e) = apply_local-ok id traffic at fresh p p' h in
        apply_batch-other casefold (fresh_id p.calls) id other traffic local_source
          (local_times p.calls at fresh) differ p.tables p'.tables x e k;
    apply_batch-counts = apply_local-counts;
  }

  module _ (fits : Journal → Bool) (samples : List Sample) (id : String) (at : ℕ)
      (m : Machine Panel) where
    -- The journal and the database after `collect`
    abbrev pub collected : Machine Panel
    collected = collect apply_local_traffic_batch fits samples id at m

    -- A collection over the database of the panel, whether it returns, raises an exception or dies at
    -- any of its durable writes, keeps the checkpoints, and the bytes of the machine in the table of
    -- days and in the journal; or it has the checkpoints of its round of samples, and those bytes have
    -- grown by exactly what the counters of the servers have grown by, where a server that has been
    -- restarted counts from 0. The names of each sample and of each checkpoint are unique, and the id
    -- of the batch is new: the database does not know it, and it is not pending.
    pub panel_bytes_are_counted_once :
        all_unique samples ≡ true
        → All UniqueNames m.journal.endpoints
        → ltb 0 (row_count (batch_is id) m.ledger.tables.applied_batches) ≡ false
        → is_pending panel_ledger fits id m ≡ false
        → Kept panel_ledger fits m collected ⊎ Advanced panel_ledger fits samples m collected
    panel_bytes_are_counted_once u all new p =
        bytes_are_counted_once panel_ledger fits samples id at m u all new p

    -- A collection over the database of the panel that is not disturbed does not end early, leaves
    -- nothing pending, and the table of days has counted for the machine what it and the journal held
    -- and what the counters of the servers have grown by, where a server that has been restarted counts
    -- from 0. Not disturbed: the journals to be written fit, the database applies the pending batch and
    -- that of the round without raising, the process lives for five more durable writes, no client
    -- fails and the deltas are valid counters. The names of each sample and of each checkpoint are
    -- unique, and the id of the batch is new.
    pub panel_collection_is_counted :
        m.lives ≡ true
        → 5 ≤ m.writes_left
        → all_unique samples ≡ true
        → All UniqueNames m.journal.endpoints
        → ltb 0 (row_count (batch_is id) m.ledger.tables.applied_batches) ≡ false
        → is_pending panel_ledger fits id m ≡ false
        → (round_of samples m).failed ≡ false
        → valid_counters (round_of samples m).merged ≡ true
        → fits (cleared m.journal) ≡ true
        → RoundFits panel_ledger fits (round_of samples m) id at
        → Accepted panel_ledger fits m.journal.pending m
        → Accepted panel_ledger fits (pending_of id at (round_of samples m).merged) (
            set_fresh
              (pending_of id at (round_of samples m).merged)
              (recover apply_local_traffic_batch fits m))
        → (collected.lives ≡ true)
          × (collected.journal.pending ≡ none)
          × (total_of origin_id collected.ledger.tables.daily + level m.journal.endpoints
              ≡ balance panel_ledger fits m
                + (level (round_of samples m).endpoints
                    + retired_all samples (start_round m.journal.endpoints)))
    panel_collection_is_counted lives writes u all new p works valid clears fit old fresh =
        collection_is_counted panel_ledger fits samples id at m lives writes u all new p works valid
          clears fit old fresh
