-- ===== src/Traffic/Budgets/ByHand.antt =====
-- An amount set by hand: it is read back, and traffic that arrives later counts once.
use hysteria2_panel.Prelude.{
  ℕ, ◌≡◌, refl, sym, ◌∙◌, ap, subst, ◌+◌, ◌-◌, String, true, some, List, ok, guard-ok, bind-ok,
  ok-injective, guard, ◌>>=◌, ◌>>◌, Date,
}
use hysteria2_panel.Nodes.UsageRows.{DailyTraffic, Budget}
use hysteria2_panel.Nodes.Database.{Database, Error}
use hysteria2_panel.Traffic.Budgets.{
  BudgetResult, BudgetChange, total_of, budget_of, origin_period, is_time_in, used_bytes_of,
  budget_result, origin_budget, get_origin_budget, used_by_hand, write_budget, set_origin_budget,
  is_valid_change, node_exists, cycle_usage,
}

-- What a budget with an amount set by hand says is used
used_bytes_of-by_hand :
    (id : String) (period : Date × Date) (cycle : ℕ) (rows : List DailyTraffic) (b : Budget)
    (at : ℕ)
    → b.baseline_at ≡ some at
    → is_time_in period at ≡ true
    → used_bytes_of id period cycle rows (some b)
      ≡ b.manual_used_bytes + (total_of id rows - b.baseline_total_bytes)
unfolding used_bytes_of
used_bytes_of-by_hand id period cycle rows b at e h =
    subst
      (λ x.
        used_by_hand id period cycle rows b x
        ≡ b.manual_used_bytes + (total_of id rows - b.baseline_total_bytes))
      (sym e) (rw h refl)

pub used_bytes-eq :
    (now : ℕ) (db : Database) (rows : List DailyTraffic) (id : String) (b : Budget) (at : ℕ)
    → budget_of db id ≡ some b
    → b.baseline_at ≡ some at
    → is_time_in (origin_period now db id) at ≡ true
    → (origin_budget now db rows id).used_bytes
      ≡ b.manual_used_bytes + (total_of id db.daily - b.baseline_total_bytes)
unfolding origin_budget budget_result
used_bytes-eq now db rows id b at e s h =
    ap
      (used_bytes_of id (origin_period now db id) (cycle_usage id (origin_period now db id) rows)
        db.daily)
      e
    ∙ used_bytes_of-by_hand id (origin_period now db id)
        (cycle_usage id (origin_period now db id) rows) db.daily b at s h

pub set-writes :
    (c : BudgetChange) (db db' : Database) (results : List BudgetResult)
    → set_origin_budget c db ≡ ok (results, db')
    → (is_valid_change c ≡ true) × (write_budget c db ≡ db')
unfolding set_origin_budget
set-writes c db db' results h =
    let (valid, h1) =
      guard-ok (is_valid_change c) Error.invalid_request
        (do
          guard (node_exists c.origin_id db) Error.no_such_node
          found ← get_origin_budget c.updated_at c.origin_id (write_budget c db)
          ok (found, write_budget c db))
        h in
    let (exists, h2) =
      guard-ok (node_exists c.origin_id db) Error.no_such_node
        (do
          found ← get_origin_budget c.updated_at c.origin_id (write_budget c db)
          ok (found, write_budget c db))
        h1 in
    let (found, got, h3) =
      bind-ok (get_origin_budget c.updated_at c.origin_id (write_budget c db))
        (λ found. ok (found, write_budget c db)) h2 in
    (valid, ap (λ x. x.1) (ok-injective h3))
