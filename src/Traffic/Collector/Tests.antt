-- ===== src/Traffic/Collector/Tests.antt =====
-- The theorems on the collector at concrete inputs.
use hysteria2_panel.Prelude.{
  ℕ, ◌≡◌, refl, subst, ◌+◌, ◌⊎◌, String, Bool, true, Option, none, some, List, [], ◌∷◌, arith,
  is_set, maybe, select, delete, row_count, str_eq, len, hex_text, name_text, month_index,
  beijing_date,
}
use hysteria2_panel.Nodes.Database.{Database, empty_database}
use hysteria2_panel.Nodes.UsageRows.{DailyTraffic}
use hysteria2_panel.Traffic.{record_usage}
use hysteria2_panel.Traffic.Batches.{apply_traffic_batch, apply_new_batch, count_entry}
use hysteria2_panel.Traffic.Budgets.{total_of}
use hysteria2_panel.Traffic.Totals.{OneADay}
use hysteria2_panel.Users.Traffic.{reset_monthly_traffic_if_due}
use hysteria2_panel.Nodes.Kicks.{distinct, sorted_by}
use hysteria2_panel.Traffic.Collector.{
  Journal, Pending, Machine, Sample, endpoint, counters_of, has_name, valid_counters, was_cleared,
  add_total, add_deltas, put_endpoint, take_counters, check_sample, sample_all, start_round,
  round_of, pending_of, set_fresh, recover, batch_result, save, apply_pending,
}
use hysteria2_panel.Traffic.Collector.Samples.{level, unique_names, all_unique, retired_all}
use hysteria2_panel.Traffic.Collector.Ledger.{Ledger, balance}
use hysteria2_panel.Traffic.Collector.Crashes.{Kept, Advanced}
use hysteria2_panel.Traffic.Collector.Completion.{Accepted}
use hysteria2_panel.Traffic.Collector.Panel.{
  Panel, panel_ledger, apply_local_traffic_batch, collected, panel_bytes_are_counted_once,
  panel_collection_is_counted,
}

abbrev same : String → String
same s = s

abbrev ids : ℕ → ℕ → String
ids _ _ = "command"

abbrev clock : ℕ → ℕ
clock n = 100000 + n

abbrev origin : String
origin = "local:00000000000000000000000000000002"

abbrev first_batch : String
first_batch = "00000000000000000000000000000001"

abbrev new_batch : String
new_batch = "00000000000000000000000000000003"

abbrev today : DailyTraffic
today = record {
  origin_id = origin;
  usage_date = 1;
  tx_bytes = 40;
  rx_bytes = 0;
  updated_at = 90000;
}

abbrev database : Database
database = record empty_database { daily = today ∷ [] }

database-OneADay : OneADay database.daily
unfolding row_count
database-OneADay o date = ground arith

abbrev panel : Panel
panel = record { tables = database; one_a_day = database-OneADay; calls = 0 }

-- The server has counted 100 bytes before, 60 of them wait in the journal.
abbrev machine : Machine Panel
machine = record {
  journal = record {
    endpoints = endpoint "hysteria" "e1" (("alice", 100, 0) ∷ []) ∷ [];
    pending =
        some
          (record { batch_id = first_batch; traffic = ("alice", 60, 0) ∷ []; observed_at = 95000 });
  };
  ledger = panel;
  fresh_batch_id = none;
  lives = true;
  writes_left = 5;
}

abbrev samples : List Sample
samples =
    record {
      unit = "hysteria";
      before = some "e1";
      traffic = some (("alice", 130, 5) ∷ ("bob", 7, 0) ∷ []);
      after = some "e1";
    }
    ∷ []

abbrev always_fits : Journal → Bool
always_fits j = true

-- The process dies after its third durable write: the new journal is saved, its batch is not applied.
abbrev dying : Machine Panel
dying = record machine { writes_left = 3 }

panel_bytes_are_counted_once_example :
    Kept
      (panel_ledger same ids clock origin "panel")
      always_fits
      dying
      (collected same ids clock origin "panel" always_fits samples new_batch 99000 dying)
    ⊎ Advanced
        (panel_ledger same ids clock origin "panel")
        always_fits
        samples
        dying
        (collected same ids clock origin "panel" always_fits samples new_batch 99000 dying)
unfolding all_unique unique_names has_name row_count str_eq
panel_bytes_are_counted_once_example =
    panel_bytes_are_counted_once same ids clock origin "panel" always_fits samples new_batch 99000
      dying refl (refl, tt) refl refl

abbrev L : Ledger Panel
L = panel_ledger same ids clock origin "panel"

taken : (o : Option Panel) → is_set o ≡ true → (p : Panel) × (o ≡ some p)
taken none h = absurd (cc)
taken (some p) h = (p, refl)

same_pending : (p q : Pending) → some q ≡ some p → q ≡ p
same_pending p q e = cc

accepted :
    (pending : Option Pending) (m : Machine Panel)
    → maybe pending true (λ p. is_set (batch_result L.apply_batch p m)) ≡ true
    → Accepted L always_fits pending m
accepted none m h p e = absurd (cc)
accepted (some q) m h p e =
    subst (λ x. (s : Panel) × (batch_result L.apply_batch x m ≡ some s)) (same_pending p q e)
      (taken (batch_result L.apply_batch q m) h)

machine-Accepted : Accepted L always_fits machine.journal.pending machine
unfolding apply_local_traffic_batch apply_traffic_batch hex_text str_eq name_text row_count
    reset_monthly_traffic_if_due apply_new_batch sorted_by distinct count_entry select
machine-Accepted = accepted machine.journal.pending machine refl

abbrev round_pending : Option Pending
round_pending = pending_of new_batch 99000 (round_of samples machine).merged

abbrev recovered : Machine Panel
recovered = set_fresh round_pending (recover L.apply_batch always_fits machine)

recovered-Accepted : Accepted L always_fits round_pending recovered
unfolding apply_local_traffic_batch apply_traffic_batch hex_text str_eq name_text row_count
    reset_monthly_traffic_if_due apply_new_batch sorted_by distinct count_entry select recover save
    apply_pending sample_all check_sample valid_counters was_cleared take_counters add_deltas
    add_total counters_of put_endpoint len has_name record_usage month_index beijing_date delete
recovered-Accepted = accepted round_pending recovered refl

panel_collection_is_counted_example :
    ((collected same ids clock origin "panel" always_fits samples new_batch 99000 machine).lives
      ≡ true)
    × ((collected same ids clock origin "panel" always_fits samples new_batch 99000
          machine).journal.pending
        ≡ none)
    × (total_of origin
            (collected same ids clock origin "panel" always_fits samples new_batch 99000
              machine).ledger.tables.daily
          + level machine.journal.endpoints
        ≡ balance L always_fits machine
          + (level (round_of samples machine).endpoints
              + retired_all samples (start_round machine.journal.endpoints)))
unfolding all_unique unique_names has_name row_count str_eq sample_all check_sample valid_counters
    was_cleared take_counters add_deltas add_total counters_of select put_endpoint len
panel_collection_is_counted_example =
    panel_collection_is_counted same ids clock origin "panel" always_fits samples new_batch 99000
      machine refl (omega arith) refl (refl, tt) refl refl refl refl refl
      (record { saves = refl; clears = refl }) machine-Accepted recovered-Accepted
