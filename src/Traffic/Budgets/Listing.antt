-- ===== src/Traffic/Budgets/Listing.antt =====
-- `list_origin_budgets` reads the traffic of all origins at once; each origin gets what it would get
-- from the whole table.
use hysteria2_panel.Prelude.{
  guard-ok, ok-injective, sym, ℕ, ◌≡◌, refl, ◌∙◌, ap, ◌≤◌, String, true, List, [], ◌∷◌, map, arith,
  ok, All, All-map, length, ◌==◌, month_index, utc_date, sum_where, select_all, leb, day_index,
  Date,
}
use hysteria2_panel.Nodes.UsageRows.{DailyTraffic}
use hysteria2_panel.Nodes.Database.{Database, Error}
use hysteria2_panel.Nodes.Kicks.{distinct}
use hysteria2_panel.Traffic.Budgets.{
  BudgetResult, cycle_usage, used_bytes_of, budget_result, budget_of, origin_period, first_day,
  next_day, is_day_between, origin_budget, budgets_of, list_origin_budgets, all_budget_origins,
}

-- The rows between two days hold all rows of a period between them.
cycle_usage-between :
    (id : String) (period : Date × Date) (first next : ℕ) (rows : List DailyTraffic)
    → first ≤ day_index (period.0)
    → day_index (period.1) ≤ next
    → cycle_usage id period (select_all (is_day_between first next) rows)
      ≡ cycle_usage id period rows
unfolding cycle_usage sum_where select_all
cycle_usage-between id period first next [] h k = refl
cycle_usage-between id period first next (d ∷ rows) h k =
    ground (arith, cycle_usage-between id period first next rows h k)

-- The period of an origin of the list
IsCovered : ℕ → Database → ℕ → ℕ → String → Type 0
IsCovered now db first next id =
    (first ≤ day_index ((origin_period now db id).0))
    × (day_index ((origin_period now db id).1) ≤ next)

covered :
    (now : ℕ) (db : Database) (id : String) (ids : List String)
    → All (IsCovered now db (first_day now db id ids) (next_day now db id ids)) (id ∷ ids)
unfolding IsCovered first_day next_day
covered now db id [] = ((omega arith, omega arith), tt)
covered now db id (next ∷ ids) = (
  (omega arith, omega arith),
  All-map (λ i c. (omega (arith, c.0), omega (arith, c.1))) (next ∷ ids) (covered now db next ids),
)

origin_budget-between :
    (now : ℕ) (db : Database) (first next : ℕ) (id : String)
    → IsCovered now db first next id
    → origin_budget now db (select_all (is_day_between first next) db.daily) id
      ≡ origin_budget now db db.daily id
unfolding origin_budget IsCovered
origin_budget-between now db first next id c =
    let period = origin_period now db id in
    ap
      (λ x.
        budget_result id (month_index (utc_date now)) period (budget_of db id)
          (used_bytes_of id period x db.daily (budget_of db id)))
      (cycle_usage-between id period first next db.daily c.0 c.1)

map-origin_budget :
    (now : ℕ) (db : Database) (first next : ℕ) (ids : List String)
    → All (IsCovered now db first next) ids
    → map (origin_budget now db (select_all (is_day_between first next) db.daily)) ids
      ≡ map (origin_budget now db db.daily) ids
map-origin_budget now db first next [] c = refl
map-origin_budget now db first next (id ∷ ids) (c, rest) =
    ap (λ x. x ∷ map (origin_budget now db (select_all (is_day_between first next) db.daily)) ids)
      (origin_budget-between now db first next id c)
    ∙ ap (λ x. origin_budget now db db.daily id ∷ x) (map-origin_budget now db first next ids rest)

budgets_of-lem :
    (now : ℕ) (db : Database) (ids : List String)
    → budgets_of now db ids ≡ map (origin_budget now db db.daily) ids
unfolding budgets_of
budgets_of-lem now db [] = refl
budgets_of-lem now db (id ∷ ids) =
    map-origin_budget now db (first_day now db id ids) (next_day now db id ids) (id ∷ ids)
      (covered now db id ids)

-- A listing that does not raise
pub list_origin_budgets-ok :
    (now : ℕ) (db : Database) (ids : List String) (results : List BudgetResult)
    → list_origin_budgets now ids db ≡ ok results
    → map (origin_budget now db db.daily) ids ≡ results
unfolding list_origin_budgets
list_origin_budgets-ok now db ids results e =
    let (_, e1) = guard-ok (leb (length ids) 1024) Error.invalid_request _ e in
    let (_, e2) = guard-ok (all_budget_origins ids) Error.invalid_request _ e1 in
    let (_, e3) = guard-ok (length (distinct ids) == length ids) Error.invalid_request _ e2 in
    sym (budgets_of-lem now db ids) ∙ ok-injective e3

-- For at most 1024 different origins of the right form, a listing returns for each of them, in their
-- order, the budget computed from all rows of the table, though it reads only the rows from the first
-- day of all their periods to the last.
pub listing_is_complete :
    (now : ℕ) (db : Database) (ids : List String)
    → length ids ≤ 1024
    → all_budget_origins ids ≡ true
    → length (distinct ids) ≡ length ids
    → list_origin_budgets now ids db ≡ ok (map (origin_budget now db db.daily) ids)
unfolding list_origin_budgets
listing_is_complete now db ids few valid different =
    let size : leb (length ids) 1024 ≡ true = ground arith in
    let same : (length (distinct ids) == length ids) ≡ true = ground arith in
    rw size (rw valid (rw same (ap ok (budgets_of-lem now db ids))))
