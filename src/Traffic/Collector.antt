-- ===== src/Traffic/Collector.antt =====
-- `LocalCumulativeCollector` of hy2panel/accounting.py: the counters of the panel's own servers
-- grow until a server restarts; a sample is compared with the last one, the difference is written
-- to a journal beside the database, applied as a batch, and cleared from the journal. The process
-- may die between any two durable writes. What a journal must look like when it is read, and the
-- rights of its file, are left out: the journals of the model are those that the collector writes.
-- A dictionary is the list of its items, with unique keys; the batch is applied by a ledger, the
-- parameter of the section; `fits` says that the JSON of a journal has at most `maximum_bytes`
-- bytes.
pub mod Ledger
pub mod Samples
pub mod Crashes
pub mod Completion
pub mod Panel
mod Tests
use hysteria2_panel.Prelude.{
  ℕ, ◌+◌, ◌-◌, String, Bool, true, false, not, ◌&&◌, ◌||◌, Option, none, some, List, [], ◌∷◌, maybe,
  select, ◌==◌, leb, ltb, if◌then◌else◌, str_eq, len,
}
use hysteria2_panel.Traffic.{max_integer}
use hysteria2_panel.Traffic.Batches.{Traffic}

pub record Endpoint : Type 0 where
  pub unit : String
  pub epoch : String
  pub traffic : Traffic

pub record Pending : Type 0 where
  pub batch_id : String
  pub traffic : Traffic
  pub observed_at : ℕ

-- The document of the journal
pub record Journal : Type 0 where
  pub endpoints : List Endpoint
  pub pending : Option Pending

-- What a client answers: the epoch of its service before and after the counters are read, each
-- `none` where the call fails
pub record Sample : Type 0 where
  pub unit : String
  pub before : Option String
  pub traffic : Option Traffic
  pub after : Option String

abbrev pub named : String → String × ℕ × ℕ → Bool
named name e = str_eq (e.0) name

-- `counters.get(name, {})`, where a missing counter is 0
unfoldable pub counters_of : String → Traffic → ℕ × ℕ
counters_of name [] = (0, 0)
counters_of name ((k, tx, rx) ∷ rest) = if str_eq k name then (tx, rx) else counters_of name rest

unfoldable pub has_name : String → Traffic → Bool
has_name name [] = false
has_name name ((k, tx, rx) ∷ rest) = str_eq k name || has_name name rest

-- `validate_counters`, on names and numbers
unfoldable pub valid_counters : Traffic → Bool
valid_counters [] = true
valid_counters ((k, tx, rx) ∷ rest) =
    leb 1 (len k)
    && leb (len k) 64
    && leb tx max_integer
    && leb rx max_integer
    && valid_counters rest

-- A counter of the last sample is missing, or larger than it is now.
unfoldable pub was_cleared : Traffic → Traffic → Bool
unfolding has_name counters_of
was_cleared traffic [] = false
was_cleared traffic ((k, tx, rx) ∷ baseline) =
    not (has_name k traffic)
    || ltb ((counters_of k traffic).0) tx
    || ltb ((counters_of k traffic).1) rx
    || was_cleared traffic baseline

-- `merged.setdefault(name, ...)` and the additions
unfoldable pub add_total : String → ℕ → ℕ → Traffic → Traffic
add_total name tx rx [] = (name, tx, rx) ∷ []
add_total name tx rx ((k, a, b) ∷ rest) =
    if str_eq k name then (k, a + tx, b + rx) ∷ rest else (k, a, b) ∷ add_total name tx rx rest

-- The loop over the counters of one client
unfoldable pub add_deltas : Traffic → Traffic → Traffic → Traffic
unfolding counters_of add_total
add_deltas baseline [] merged = merged
add_deltas baseline ((k, tx, rx) ∷ traffic) merged =
    let dtx : ℕ = tx - (counters_of k baseline).0 in
    let drx : ℕ = rx - (counters_of k baseline).1 in
    add_deltas baseline traffic
      (if ltb 0 dtx || ltb 0 drx then add_total k dtx drx merged else merged)

abbrev pub unit_is : String → Endpoint → Bool
unit_is unit e = str_eq e.unit unit

-- The last sample of the service, if it has not been restarted since
abbrev pub baseline_of : String → Option Endpoint → Traffic
baseline_of epoch none = []
baseline_of epoch (some e) = if str_eq e.epoch epoch then e.traffic else []

abbrev pub endpoint : String → String → Traffic → Endpoint
endpoint unit epoch traffic = record { unit = unit; epoch = epoch; traffic = traffic }

-- The sampled totals, the checkpoints, and whether a client failed
pub record Round : Type 0 where
  pub endpoints : List Endpoint
  pub merged : Traffic
  pub failed : Bool

abbrev pub failure : Round → Round
failure r = record r { failed = true }

-- `endpoints[unit] = ...`
unfoldable pub put_endpoint : Endpoint → List Endpoint → List Endpoint
put_endpoint new [] = new ∷ []
put_endpoint new (e ∷ rest) = if unit_is new.unit e then new ∷ rest else e ∷ put_endpoint new rest

-- A client whose counters were read in one epoch
unfoldable pub take_counters : String → String → Traffic → Round → Round
unfolding add_deltas put_endpoint
take_counters unit epoch traffic r = record r {
  endpoints = put_endpoint (endpoint unit epoch traffic) r.endpoints;
  merged = add_deltas (baseline_of epoch (select (unit_is unit) r.endpoints)) traffic r.merged;
}

abbrev pub cleared_since : String → String → Traffic → Round → Bool
cleared_since unit epoch traffic r =
    was_cleared traffic (baseline_of epoch (select (unit_is unit) r.endpoints))

-- The body of the loop over the clients: an exception is kept for the end.
unfoldable pub check_sample :
    String → Option String → Option Traffic → Option String → Round → Round
unfolding valid_counters was_cleared take_counters
check_sample unit (some epoch) (some traffic) (some epoch') r =
    if valid_counters traffic && str_eq epoch epoch' && not (cleared_since unit epoch traffic r)
    then take_counters unit epoch traffic r
    else failure r
check_sample unit _ _ _ r = failure r

unfoldable pub sample_all : List Sample → Round → Round
unfolding check_sample
sample_all [] r = r
sample_all (s ∷ samples) r = sample_all samples (check_sample s.unit s.before s.traffic s.after r)

abbrev pub pending_of : String → ℕ → Traffic → Option Pending
pending_of batch_id observed_at [] = none
pending_of batch_id observed_at (e ∷ merged) =
    some (record { batch_id = batch_id; traffic = e ∷ merged; observed_at = observed_at })

-- What `!=` compares of two dictionaries: the same keys with the same values, in any order
unfoldable pub holds_counters : Traffic → Traffic → Bool
unfolding has_name counters_of
holds_counters [] traffic = true
holds_counters ((k, tx, rx) ∷ rest) traffic =
    has_name k traffic
    && (counters_of k traffic).0 == tx
    && (counters_of k traffic).1 == rx
    && holds_counters rest traffic

unfoldable pub same_counters : Traffic → Traffic → Bool
unfolding holds_counters
same_counters xs ys = holds_counters xs ys && holds_counters ys xs

abbrev pub is_checkpoint : Endpoint → Option Endpoint → Bool
is_checkpoint e none = false
is_checkpoint e (some f) = str_eq e.epoch f.epoch && same_counters e.traffic f.traffic

unfoldable pub holds_endpoints : List Endpoint → List Endpoint → Bool
unfolding same_counters
holds_endpoints [] endpoints = true
holds_endpoints (e ∷ rest) endpoints =
    is_checkpoint e (select (unit_is e.unit) endpoints) && holds_endpoints rest endpoints

unfoldable pub same_endpoints : List Endpoint → List Endpoint → Bool
unfolding holds_endpoints
same_endpoints xs ys = holds_endpoints xs ys && holds_endpoints ys xs

-- The journal, the ledger, whether the run has neither died nor raised an exception, and how many
-- durable writes it makes before it dies
pub record Machine (S : Type 0) : Type 0 where
  pub journal : Journal
  pub ledger : S
  pub fresh_batch_id : Option String
  pub lives : Bool
  pub writes_left : ℕ

abbrev pub is_fresh : Option String → String → Bool
is_fresh none id = false
is_fresh (some f) id = str_eq id f

abbrev pub cleared : Journal → Journal
cleared j = record j { pending = none }

abbrev pub has_batch : Option Pending → Bool
has_batch pending = maybe pending false (λ _. true)

abbrev pub journal_of : Round → Option Pending → Journal
journal_of r pending = record { endpoints = r.endpoints; pending = pending }

abbrev pub start_round : List Endpoint → Round
start_round endpoints = record { endpoints = endpoints; merged = []; failed = false }

module _ {S : Type 0} where
  -- The run ends, by an exception or with the process.
  abbrev pub stop : Machine S → Machine S
  stop m = record m { lives = false }

  -- The process lives to make a durable write.
  abbrev pub can_write : Machine S → Bool
  can_write m = m.lives && leb 1 m.writes_left

  abbrev pub saved : Journal → Machine S → Machine S
  saved j m = record m { journal = j; writes_left = m.writes_left - 1 }

  abbrev pub applied : S → Machine S → Machine S
  applied s m = record m { ledger = s; writes_left = m.writes_left - 1 }

  abbrev pub forget_fresh : Machine S → Machine S
  forget_fresh m = record m { fresh_batch_id = if m.lives then none else m.fresh_batch_id }

  abbrev pub set_fresh : Option Pending → Machine S → Machine S
  set_fresh pending m = record m {
    fresh_batch_id = maybe pending m.fresh_batch_id (λ p. some p.batch_id);
  }

  abbrev pub end_round : Bool → Machine S → Machine S
  end_round failed m = if failed then stop m else m

  abbrev pub round_of : List Sample → Machine S → Round
  round_of samples m = sample_all samples (start_round m.journal.endpoints)

  -- `_save`
  unfoldable pub save : (Journal → Bool) → Journal → Machine S → Machine S
  save fits j m = if fits j && can_write m then saved j m else stop m

module _ {S : Type 0} (apply_batch : String → Traffic → ℕ → Bool → S → Option S) where
  abbrev pub batch_result : Pending → Machine S → Option S
  batch_result p m =
      apply_batch p.batch_id p.traffic p.observed_at (is_fresh m.fresh_batch_id p.batch_id) m.ledger

  -- `apply_batch`, one transaction of the database, or an exception
  unfoldable pub apply_pending : Pending → Machine S → Machine S
  apply_pending p m =
      maybe (batch_result p m) (stop m) (λ s. if can_write m then applied s m else stop m)

module _ {S : Type 0} (apply_batch : String → Traffic → ℕ → Bool → S → Option S)
    (fits : Journal → Bool) where
  abbrev pub recover_from : Option Pending → Machine S → Machine S
  recover_from none m = m
  recover_from (some p) m =
      forget_fresh (save fits (cleared m.journal) (apply_pending apply_batch p m))

  unfoldable pub recover : Machine S → Machine S
  unfolding save apply_pending
  recover m = recover_from m.journal.pending m

  abbrev pub save_round : Round → Option Pending → Machine S → Machine S
  save_round r pending m =
      if has_batch pending || not (same_endpoints r.endpoints m.journal.endpoints)
      then recover (save fits (journal_of r pending) (set_fresh pending m))
      else m

  -- After the recovery of the last sample
  abbrev pub collect_round : String → ℕ → Round → Machine S → Machine S
  collect_round batch_id observed_at r m =
      if not m.lives
      then m
      else if valid_counters r.merged
      then end_round r.failed (save_round r (pending_of batch_id observed_at r.merged) m)
      else stop m

  unfoldable pub collect : List Sample → String → ℕ → Machine S → Machine S
  unfolding recover sample_all valid_counters same_endpoints
  collect samples batch_id observed_at m =
      let recovered = recover m in
      collect_round batch_id observed_at (round_of samples recovered) recovered
