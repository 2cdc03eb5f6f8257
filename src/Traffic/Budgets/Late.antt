-- ===== src/Traffic/Budgets/Late.antt =====
-- Traffic that is recorded after an amount was set by hand: `_record_usage_origin_traffic` of
-- hysteria2_panel.py moves the baseline of the budget for what the amount has counted already.
use hysteria2_panel.Prelude.{
  ℕ, ◌≡◌, refl, sym, ◌∙◌, ap, ◌+◌, ◌-◌, ◌≤◌, Bool, true, false, ◌&&◌, some, List, [], ◌∷◌, inl, inr,
  arith, select, update, row_count, select-update_narrow, leb, if◌then◌else◌, if_cases, Bool-cases,
  select_holds, str_eq_refl, maybe, day_index, utc_date,
}
use hysteria2_panel.Nodes.UsageRows.{Budget}
use hysteria2_panel.Nodes.Database.{Database}
use hysteria2_panel.Traffic.{Entry, record_usage, day_is, counted_by_hand, later_baseline}
use hysteria2_panel.Traffic.Budgets.{
  total_of, budget_is, budget_of, budget_period, origin_period, reset_day_of, is_time_in,
  origin_budget,
}
use hysteria2_panel.Traffic.Totals.{total-record_day}
use hysteria2_panel.Traffic.Budgets.ByHand.{used_bytes-eq}

module _ {A : Type 0} (p test : A → Bool) (change : A → A) where
  -- A SELECT that finds a row that the UPDATE leaves
  select-update_skips :
      (xs : List A) (x : A)
      → ((y : A) → p (change y) ≡ p y)
      → select p xs ≡ some x
      → test x ≡ false
      → select p (update test change xs) ≡ some x
  unfolding select update
  select-update_skips [] x keeps e f = absurd (cc)
  select-update_skips (y ∷ xs) x keeps e f =
      ground (arith, keeps y, ap test, select-update_skips xs x keeps)

-- The budget of the origin after the entry
moved_budget :
    (e : Entry) (db : Database) (b : Budget) (at : ℕ)
    → budget_of db e.origin_id ≡ some b
    → b.baseline_at ≡ some at
    → budget_of (record_usage e db) e.origin_id
      ≡ some (if leb e.observed_at at then later_baseline e b else b)
unfolding record_usage
moved_budget e db b at s m =
    if_cases (λ x. budget_of (record_usage e db) e.origin_id ≡ some x) (leb e.observed_at at)
      (later_baseline e b) b
      (λ t.
        select-update_narrow (budget_is e.origin_id) (counted_by_hand e) (later_baseline e)
          db.budgets b (λ y h. ground (arith, h)) s (ground (arith, own, counted, t)) own)
      (λ f.
        select-update_skips (budget_is e.origin_id) (counted_by_hand e) (later_baseline e)
          db.budgets b (λ y. refl) s (ground (arith, counted, f)))
  where
    own : budget_is e.origin_id b ≡ true
    own = select_holds (budget_is e.origin_id) db.budgets b s

    counted : counted_by_hand e b ≡ (budget_is e.origin_id b && leb e.observed_at at)
    counted = ap (λ x. budget_is e.origin_id b && maybe x false (λ t. leb e.observed_at t)) m

-- An entry of traffic counts once for a budget whose used amount was set by hand in the current
-- period: where it was observed at that time or before, the amount has counted it and what the budget
-- reports as used stays, and where it was observed later, that grows by its bytes. The table of days
-- has at most one row for the origin and the day of the entry, and the baseline is not above the
-- traffic in the table.
pub late_traffic_counts_once :
    (e : Entry) (now at : ℕ) (db : Database) (b : Budget)
    → budget_of db e.origin_id ≡ some b
    → b.baseline_at ≡ some at
    → is_time_in (origin_period now db e.origin_id) at ≡ true
    → row_count (day_is e.origin_id (day_index (utc_date e.observed_at))) db.daily ≤ 1
    → b.baseline_total_bytes ≤ total_of e.origin_id db.daily
    → (origin_budget now (record_usage e db) (record_usage e db).daily e.origin_id).used_bytes
      ≡ (origin_budget now db db.daily e.origin_id).used_bytes
        + (if leb e.observed_at at then 0 else e.tx + e.rx)
unfolding record_usage
late_traffic_counts_once e now at db b s m inside one below =
    elim (Bool-cases (leb e.observed_at at)) [
      | inl t ↦ rw t (
          omega (
            arith,
            before,
            after_entry (later_baseline e b)
                (moved ∙ ap (λ x. some (if x then later_baseline e b else b)) t) m refl,
            own_total,
            below,
          ))
      | inr f ↦ rw f (
          omega (
            arith,
            before,
            after_entry b (moved ∙ ap (λ x. some (if x then later_baseline e b else b)) f) m refl,
            own_total,
            below,
          ))
    ]
  where
    own_total :
        total_of e.origin_id (record_usage e db).daily
        ≡ total_of e.origin_id db.daily + (e.tx + e.rx)
    own_total =
        total-record_day e e.origin_id db.daily one
        ∙ ap (λ x. total_of e.origin_id db.daily + (if x then e.tx + e.rx else 0))
            (str_eq_refl e.origin_id)

    before :
        (origin_budget now db db.daily e.origin_id).used_bytes
        ≡ b.manual_used_bytes + (total_of e.origin_id db.daily - b.baseline_total_bytes)
    before = used_bytes-eq now db db.daily e.origin_id b at s m inside

    moved :
        budget_of (record_usage e db) e.origin_id
        ≡ some (if leb e.observed_at at then later_baseline e b else b)
    moved = moved_budget e db b at s m

    after_entry :
        (x : Budget)
        → budget_of (record_usage e db) e.origin_id ≡ some x
        → x.baseline_at ≡ some at
        → x.reset_day ≡ b.reset_day
        → (origin_budget now (record_usage e db) (record_usage e db).daily e.origin_id).used_bytes
          ≡ x.manual_used_bytes
            + (total_of e.origin_id (record_usage e db).daily - x.baseline_total_bytes)
    after_entry x found marked same =
        let reset = ap reset_day_of found ∙ same ∙ sym (ap reset_day_of s) in
        used_bytes-eq now (record_usage e db) (record_usage e db).daily e.origin_id x at found
          marked (ap (λ d. is_time_in (budget_period now d) at) reset ∙ inside)
