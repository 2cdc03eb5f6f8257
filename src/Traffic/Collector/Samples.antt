-- ===== src/Traffic/Collector/Samples.antt =====
-- What a round of samples counts for the machine: the bytes by which the counters of its servers have
-- grown, in both directions and of all names.
use hysteria2_panel.Prelude.{
  ℕ, ◌≡◌, refl, ap, ◌+◌, ◌-◌, ◌≤◌, String, Bool, true, false, not, ◌&&◌, ◌||◌, Option, none, some,
  List, [], ◌∷◌, inl, inr, arith, Bool-cases, &&→both, maybe, select, All, All-select, ltb,
  if◌then◌else◌, str_eq, str_eq→eq, str_eq_refl, str_eq_sym,
}
use hysteria2_panel.Traffic.Batches.{Traffic}
use hysteria2_panel.Traffic.Totals.{bytes_in}
use hysteria2_panel.Traffic.Collector.{
  Endpoint, Sample, Round, counters_of, has_name, was_cleared, add_total, add_deltas, unit_is,
  baseline_of, endpoint, put_endpoint, take_counters, cleared_since, check_sample, sample_all,
  valid_counters,
}

-- The names of a dictionary are unique.
unfoldable pub unique_names : Traffic → Bool
unfolding has_name
unique_names [] = true
unique_names ((k, tx, rx) ∷ rest) = not (has_name k rest) && unique_names rest

unfoldable pub all_unique : List Sample → Bool
unfolding unique_names
all_unique [] = true
all_unique (s ∷ samples) = maybe s.traffic true unique_names && all_unique samples

-- The bytes of all checkpoints
unfoldable pub level : List Endpoint → ℕ
level [] = 0
level (e ∷ rest) = bytes_in e.traffic + level rest

-- The names of each checkpoint are unique.
abbrev pub UniqueNames : Endpoint → Type 0
UniqueNames e = unique_names e.traffic ≡ true

bytes-add_total :
    (k : String) (tx rx : ℕ) (merged : Traffic)
    → bytes_in (add_total k tx rx merged) ≡ bytes_in merged + (tx + rx)
unfolding add_total
bytes-add_total k tx rx [] = omega arith
bytes-add_total k tx rx ((j, a, b) ∷ rest) = ground (arith, bytes-add_total k tx rx rest)

-- One turn of the loop over the counters
bytes-turn :
    (k : String) (tx rx : ℕ) (merged : Traffic)
    → bytes_in (if ltb 0 tx || ltb 0 rx then add_total k tx rx merged else merged)
      ≡ bytes_in merged + (tx + rx)
bytes-turn k tx rx merged = elim (Bool-cases (ltb 0 tx || ltb 0 rx)) [
  | inl t ↦ rw t (bytes-add_total k tx rx merged)
  | inr f ↦ ground arith
]

-- What the counters have grown by since a baseline
unfoldable growth : Traffic → Traffic → ℕ
unfolding counters_of
growth baseline [] = 0
growth baseline ((k, tx, rx) ∷ traffic) =
    (tx - (counters_of k baseline).0) + (rx - (counters_of k baseline).1) + growth baseline traffic

bytes-add_deltas :
    (baseline traffic merged : Traffic)
    → bytes_in (add_deltas baseline traffic merged) ≡ bytes_in merged + growth baseline traffic
unfolding add_deltas growth
bytes-add_deltas baseline [] merged = omega arith
bytes-add_deltas baseline ((k, tx, rx) ∷ traffic) merged =
    let dtx : ℕ = tx - (counters_of k baseline).0 in
    let drx : ℕ = rx - (counters_of k baseline).1 in
    omega (
      arith,
      bytes-add_deltas baseline traffic
          (if ltb 0 dtx || ltb 0 drx then add_total k dtx drx merged else merged),
      bytes-turn k dtx drx merged,
    )

growth-empty : (traffic : Traffic) → growth [] traffic ≡ bytes_in traffic
unfolding growth counters_of
growth-empty [] = refl
growth-empty ((k, tx, rx) ∷ traffic) = omega (arith, growth-empty traffic)

absent-counters : (k : String) (xs : Traffic) → has_name k xs ≡ false → counters_of k xs ≡ (0, 0)
unfolding has_name counters_of
absent-counters k [] h = refl
absent-counters k ((j, tx, rx) ∷ xs) h = ground (arith, absent-counters k xs)

-- A name of the baseline that has no counter
growth-absent :
    (k : String) (a b : ℕ) (baseline traffic : Traffic)
    → has_name k traffic ≡ false
    → growth ((k, a, b) ∷ baseline) traffic ≡ growth baseline traffic
unfolding growth counters_of has_name
growth-absent k a b baseline [] h = refl
growth-absent k a b baseline ((j, tx, rx) ∷ traffic) h =
    ground (arith, str_eq_sym j k, growth-absent k a b baseline traffic)

-- A name of the baseline, whose counter has grown
growth-present :
    (k : String) (a b : ℕ) (baseline traffic : Traffic)
    → unique_names traffic ≡ true
    → has_name k traffic ≡ true
    → has_name k baseline ≡ false
    → a ≤ (counters_of k traffic).0
    → b ≤ (counters_of k traffic).1
    → growth ((k, a, b) ∷ baseline) traffic + (a + b) ≡ growth baseline traffic
unfolding growth counters_of has_name unique_names
growth-present k a b baseline [] u here absent h l = absurd (cc)
growth-present k a b baseline ((j, tx, rx) ∷ traffic) u here absent h l =
    elim (Bool-cases (str_eq j k)) [
      | inr other ↦ ground (arith, str_eq_sym j k, growth-present k a b baseline traffic)
      | inl same ↦
          let path = str_eq→eq j k same in
          ground (
            arith,
            str_eq_refl k,
            ap (λ x. str_eq k x) path,
            ap (λ x. counters_of x baseline) path,
            absent-counters k baseline absent,
            growth-absent k a b baseline traffic,
            ap (λ x. has_name x traffic) path,
          )
    ]

growth-bytes :
    (baseline traffic : Traffic)
    → unique_names baseline ≡ true
    → unique_names traffic ≡ true
    → was_cleared traffic baseline ≡ false
    → growth baseline traffic + bytes_in baseline ≡ bytes_in traffic
unfolding was_cleared unique_names
growth-bytes [] traffic u t c = omega (arith, growth-empty traffic)
growth-bytes ((k, a, b) ∷ baseline) traffic u t c = omega (
  arith,
  growth-present k a b baseline traffic t (ground arith) (ground arith) (ground arith)
      (ground arith),
  growth-bytes baseline traffic (ground arith) t (ground arith),
)

-- The checkpoint of a service that has been restarted since
unfoldable pub retired : String → Option Endpoint → ℕ
retired epoch none = 0
retired epoch (some e) = if str_eq e.epoch epoch then 0 else bytes_in e.traffic

level-put_endpoint :
    (new : Endpoint) (endpoints : List Endpoint)
    → level (put_endpoint new endpoints)
        + maybe (select (unit_is new.unit) endpoints) 0 (λ e. bytes_in e.traffic)
      ≡ level endpoints + bytes_in new.traffic
unfolding level put_endpoint select
level-put_endpoint new [] = omega arith
level-put_endpoint new (e ∷ rest) = ground (arith, level-put_endpoint new rest)

put_endpoint-Unique :
    (new : Endpoint) (endpoints : List Endpoint)
    → UniqueNames new
    → All UniqueNames endpoints
    → All UniqueNames (put_endpoint new endpoints)
unfolding put_endpoint
put_endpoint-Unique new [] n h = (n, tt)
put_endpoint-Unique new (e ∷ rest) n (h, all) = elim (Bool-cases (unit_is new.unit e)) [
  | inl t ↦ rw t (n, all)
  | inr f ↦ rw f (h, put_endpoint-Unique new rest n all)
]

baseline-retired :
    (epoch : String) (old : Option Endpoint)
    → bytes_in (baseline_of epoch old) + retired epoch old ≡ maybe old 0 (λ e. bytes_in e.traffic)
unfolding retired
baseline-retired epoch none = refl
baseline-retired epoch (some e) = ground arith

baseline-Unique :
    (epoch : String) (old : Option Endpoint)
    → ((e : Endpoint) → old ≡ some e → UniqueNames e)
    → unique_names (baseline_of epoch old) ≡ true
unfolding unique_names
baseline-Unique epoch none h = refl
baseline-Unique epoch (some e) h = ground (arith, h e refl)

module _ (unit epoch : String) (traffic : Traffic) (r : Round) (u : unique_names traffic ≡ true)
    (all : All UniqueNames r.endpoints) where
  bytes-take :
      cleared_since unit epoch traffic r ≡ false
      → bytes_in (take_counters unit epoch traffic r).merged + level r.endpoints
        ≡ bytes_in r.merged
          + (level (take_counters unit epoch traffic r).endpoints
              + retired epoch (select (unit_is unit) r.endpoints))
  unfolding take_counters
  bytes-take c =
      let old = select (unit_is unit) r.endpoints in
      let before =
        baseline-Unique epoch old
          (λ e found. All-select UniqueNames (unit_is unit) r.endpoints e all found) in
      omega (
        arith,
        bytes-add_deltas (baseline_of epoch old) traffic r.merged,
        growth-bytes (baseline_of epoch old) traffic before u c,
        baseline-retired epoch old,
        level-put_endpoint (endpoint unit epoch traffic) r.endpoints,
      )

  take-Unique : All UniqueNames (take_counters unit epoch traffic r).endpoints
  unfolding take_counters
  take-Unique = put_endpoint-Unique (endpoint unit epoch traffic) r.endpoints u all

-- What the checkpoints that a sample replaces after a restart had counted
unfoldable pub retired_by : String → Option String → Option Traffic → Option String → Round → ℕ
unfolding retired valid_counters was_cleared
retired_by unit (some epoch) (some traffic) (some epoch') r =
    if valid_counters traffic && str_eq epoch epoch' && not (cleared_since unit epoch traffic r)
    then retired epoch (select (unit_is unit) r.endpoints)
    else 0
retired_by unit _ _ _ r = 0

unfoldable pub retired_all : List Sample → Round → ℕ
unfolding retired_by check_sample
retired_all [] r = 0
retired_all (s ∷ samples) r =
    retired_by s.unit s.before s.traffic s.after r
    + retired_all samples (check_sample s.unit s.before s.traffic s.after r)

-- What a step from one round to another counts
record Gained (extra : ℕ) (r r' : Round) : Type 0 where
  unique : All UniqueNames r'.endpoints
  bytes : bytes_in r'.merged + level r.endpoints ≡ bytes_in r.merged + (level r'.endpoints + extra)

check_sample-Gained :
    (unit : String) (before : Option String) (traffic : Option Traffic) (after : Option String)
    (r : Round)
    → maybe traffic true unique_names ≡ true
    → All UniqueNames r.endpoints
    → Gained (retired_by unit before traffic after r) r (check_sample unit before traffic after r)
unfolding check_sample retired_by
check_sample-Gained unit (some epoch) (some traffic) (some epoch') r h all =
    elim (Bool-cases
      (valid_counters traffic && str_eq epoch epoch' && not (cleared_since unit epoch traffic r))) [
        | inl t ↦ rw t (record {
          unique = take-Unique unit epoch traffic r h all;
          bytes = bytes-take unit epoch traffic r h all (ground arith);
        })
        | inr f ↦ rw f (record { unique = all; bytes = omega arith })
      ]
check_sample-Gained unit none traffic after r h all = record { unique = all; bytes = omega arith }
check_sample-Gained unit (some epoch) none after r h all = record {
  unique = all;
  bytes = omega arith;
}
check_sample-Gained unit (some epoch) (some traffic) none r h all = record {
  unique = all;
  bytes = omega arith;
}

-- A round of samples counts the growth of the checkpoints, and those that it replaces.
pub bytes-sample_all :
    (samples : List Sample) (r : Round)
    → all_unique samples ≡ true
    → All UniqueNames r.endpoints
    → bytes_in (sample_all samples r).merged + level r.endpoints
      ≡ bytes_in r.merged + (level (sample_all samples r).endpoints + retired_all samples r)
unfolding all_unique sample_all retired_all
bytes-sample_all [] r h all = omega arith
bytes-sample_all (s ∷ samples) r h all =
    let (first, rest) = &&→both (maybe s.traffic true unique_names) (all_unique samples) h in
    let turn = check_sample s.unit s.before s.traffic s.after r in
    let c = check_sample-Gained s.unit s.before s.traffic s.after r first all in
    omega (arith, c.bytes, bytes-sample_all samples turn rest c.unique)
