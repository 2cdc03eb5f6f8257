-- ===== src/Traffic/Totals.antt =====
-- What the table of days counts for each machine: `_record_usage_origin_traffic` and
-- `apply_traffic_batch` of hysteria2_panel.py.
pub mod Local
pub mod Nodes
use hysteria2_panel.Prelude.{
  ℕ, ◌≡◌, refl, sym, ◌∙◌, ap, subst, ◌+◌, ◌≤◌, String, Bool, true, ◌&&◌, Option, none, some, List,
  [], ◌∷◌, ◌++◌, inl, inr, arith, ok, Bool-cases, &&→both, if_cases, if◌then◌else◌, row_count,
  row_count-update, row_count-snoc, update, ltb, ◌==◌, max, sum_where-snoc, sum_where-update_one,
  str_eq, str_eq→eq, utc_date, day_index,
}
use hysteria2_panel.Nodes.UsageRows.{DailyTraffic}
use hysteria2_panel.Nodes.Row.{Command}
use hysteria2_panel.Nodes.Database.{Database, insert_command}
use hysteria2_panel.Nodes.Invariant.Rules.{insert_command-eq}
use hysteria2_panel.Users.Traffic.{
  reset_monthly_traffic_if_due, reset_monthly-cases, begin_month, reset_all_with,
}
use hysteria2_panel.Traffic.Batches.{Traffic, after_reset}
use hysteria2_panel.Traffic.{Entry, upsert, record_day, day_is}
use hysteria2_panel.Traffic.Budgets.{bytes_of, daily_of, total_of}

-- The primary key of the table: a machine has one row for a day.
abbrev pub OneADay : List DailyTraffic → Type 0
OneADay rows = (o : String) (date : ℕ) → row_count (day_is o date) rows ≤ 1

abbrev pub bytes_in : Traffic → ℕ
bytes_in [] = 0
bytes_in ((name, tx, rx) ∷ traffic) = tx + rx + bytes_in traffic

-- The total of a machine has grown by some bytes, and a day still has one row.
pub record Grown (o : String) (bytes : ℕ) (old new : List DailyTraffic) : Type 0 where
  pub one : OneADay new
  pub total : total_of o new ≡ total_of o old + bytes

module _ (e : Entry) where
  entry_date : ℕ
  entry_date = day_index (utc_date e.observed_at)

  add_day : DailyTraffic → DailyTraffic
  add_day d = record d {
    tx_bytes = d.tx_bytes + e.tx;
    rx_bytes = d.rx_bytes + e.rx;
    updated_at = max d.updated_at e.now;
  }

  new_day : DailyTraffic
  new_day = record {
    origin_id = e.origin_id;
    usage_date = entry_date;
    tx_bytes = e.tx;
    rx_bytes = e.rx;
    updated_at = e.now;
  }

  record_day-cases :
      (P : List DailyTraffic → Type 0) (rows : List DailyTraffic)
      → (row_count (day_is e.origin_id entry_date) rows ≡ 0 → P (rows ++ new_day ∷ []))
      → (ltb 0 (row_count (day_is e.origin_id entry_date) rows) ≡ true
          → P (update (day_is e.origin_id entry_date) add_day rows))
      → P (record_day e rows)
  unfolding record_day upsert entry_date add_day new_day
  record_day-cases P rows inserted updated =
      if_cases P (ltb 0 (row_count (day_is e.origin_id entry_date) rows))
        (update (day_is e.origin_id entry_date) add_day rows) (rows ++ new_day ∷ []) updated
        (λ f. inserted (ground arith))

  day_is-same :
      (o : String) (d : DailyTraffic)
      → day_is e.origin_id entry_date d ≡ true
      → daily_of o d ≡ str_eq e.origin_id o
  day_is-same o d t =
      ap (λ z. str_eq z o)
        (str_eq→eq d.origin_id e.origin_id
          ((&&→both (str_eq d.origin_id e.origin_id) (d.usage_date == entry_date) t).0))

  -- An entry adds its bytes to the total of its machine, and to no other.
  pub total-record_day :
      (o : String) (rows : List DailyTraffic)
      → row_count (day_is e.origin_id (day_index (utc_date e.observed_at))) rows ≤ 1
      → total_of o (record_day e rows)
        ≡ total_of o rows + (if str_eq e.origin_id o then e.tx + e.rx else 0)
  unfolding entry_date add_day new_day
  total-record_day o rows one =
      record_day-cases
        (λ x. total_of o x ≡ total_of o rows + (if str_eq e.origin_id o then e.tx + e.rx else 0))
        rows (λ _. sum_where-snoc (daily_of o) bytes_of new_day rows)
        (λ t.
          sum_where-update_one (daily_of o) bytes_of (day_is e.origin_id entry_date) add_day
            (e.tx + e.rx) (str_eq e.origin_id o) rows (day_is-same o) (day_is-same o)
            (λ d. omega arith) (ground (arith, one)))

  new_day-OneADay :
      (rows : List DailyTraffic) (o : String) (date : ℕ)
      → row_count (day_is e.origin_id entry_date) rows ≡ 0
      → row_count (day_is o date) rows ≤ 1
      → row_count (day_is o date) (rows ++ new_day ∷ []) ≤ 1
  unfolding new_day
  new_day-OneADay rows o date none_yet one = elim (Bool-cases (day_is o date new_day)) [
    | inr other ↦ ground (arith, row_count-snoc (day_is o date) new_day rows)
    | inl same ↦
        let (origin, day) = &&→both (str_eq e.origin_id o) (entry_date == date) same in
        let here : day_is e.origin_id entry_date ≡ day_is o date =
          ap (λ x. day_is x entry_date) (str_eq→eq e.origin_id o origin)
          ∙ ap (day_is o) (ground arith) in
        ground (
          arith,
          row_count-snoc (day_is o date) new_day rows,
          sym (ap (λ f. row_count f rows) here),
        )
  ]

  pub record_day-OneADay : (rows : List DailyTraffic) → OneADay rows → OneADay (record_day e rows)
  unfolding add_day
  record_day-OneADay rows one o date =
      record_day-cases (λ x. row_count (day_is o date) x ≤ 1) rows
        (λ none_yet. new_day-OneADay rows o date none_yet (one o date))
        (λ t.
          subst (λ n. n ≤ 1)
            (sym (
              row_count-update (day_is o date) (day_is e.origin_id entry_date) add_day rows
                (λ d _. refl)))
            (one o date))

  pub record_day-Grown :
      (o : String) (rows : List DailyTraffic)
      → OneADay rows
      → Grown o (if str_eq e.origin_id o then e.tx + e.rx else 0) rows (record_day e rows)
  record_day-Grown o rows h = record {
    one = record_day-OneADay rows h;
    total = total-record_day o rows (h e.origin_id (day_index (utc_date e.observed_at)));
  }

pub Grown-none :
    (o : String) (own : Bool) (rows : List DailyTraffic)
    → OneADay rows
    → Grown o (if own then 0 else 0) rows rows
Grown-none o own rows h = record { one = h; total = ground arith }

pub Grown-more :
    (o : String) (a b : ℕ) (own : Bool) (old between new : List DailyTraffic)
    → Grown o (if own then a else 0) old between
    → Grown o (if own then b else 0) between new
    → Grown o (if own then a + b else 0) old new
Grown-more o a b own old between new g h = record {
  one = h.one;
  total = ground (arith, g.total, h.total);
}

pub reset-daily :
    (now : ℕ) (db : Database) → (reset_monthly_traffic_if_due now db).1.daily ≡ db.daily
unfolding begin_month reset_all_with
reset-daily now db = reset_monthly-cases (λ d. d.daily ≡ db.daily) now db refl (λ _. refl) refl

-- The table of days, which a new command leaves
abbrev pub HasDaily : List DailyTraffic → Database → Type 0
HasDaily rows d = d.daily ≡ rows

pub HasDaily-insert :
    (rows : List DailyTraffic) (c : Command) (d d' : Database)
    → insert_command c d ≡ ok d'
    → HasDaily rows d
    → HasDaily rows d'
HasDaily-insert rows c d d' e h = subst (λ x. x.daily ≡ rows) (insert_command-eq c d d' e).1 h

pub after_reset-daily : (at : Option ℕ) (db : Database) → (after_reset at db).daily ≡ db.daily
after_reset-daily none db = refl
after_reset-daily (some at) db = reset-daily at db
