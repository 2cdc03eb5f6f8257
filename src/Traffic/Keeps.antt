-- ===== src/Traffic/Keeps.antt =====
-- What the loops of the batches keep: they write the tables that count traffic, the counters of the
-- accounts, and new commands.
use hysteria2_panel.Prelude.{
  ℕ, ◌≡◌, String, List, [], ◌∷◌, ok, Commits, Commits-ok, Commits-bind, commits_rules, true,
}
use hysteria2_panel.Nodes.Row.{Node, User, Command}
use hysteria2_panel.Nodes.UsageRows.{Origin, OriginUser, DailyTraffic, Budget, HourlyTraffic}
use hysteria2_panel.Nodes.Database.{Database, insert_command}
use hysteria2_panel.Nodes.Kicks.Reach.{queue_kick_users-keeps}
use hysteria2_panel.Traffic.{record_usage}
use hysteria2_panel.Traffic.Batches.{
  Traffic, Source, Times, count_entry, count_entries, kick_groups, kick_exhausted,
}
use hysteria2_panel.Traffic.NodeBatches.{Report, Tally, node_entry, node_entries}

-- The tables that an entry of a batch writes
abbrev pub booked :
    List User
    → List Origin
    → List OriginUser
    → List DailyTraffic
    → List Budget
    → List HourlyTraffic
    → Database
    → Database
booked users origins origin_users daily budgets hourly db = record db {
  users = users;
  origins = origins;
  origin_users = origin_users;
  daily = daily;
  budgets = budgets;
  hourly = hourly;
}

-- A property that does not see the writes of an entry
abbrev pub IgnoresBooks {κ} : (Database → Type κ) → Type κ
IgnoresBooks P =
    (users : List User) (origins : List Origin) (origin_users : List OriginUser)
    (daily : List DailyTraffic) (budgets : List Budget) (hourly : List HourlyTraffic)
    (db : Database)
    → P db
    → P (booked users origins origin_users daily budgets hourly db)

-- A property that a new command keeps
abbrev pub KeptByInsert {κ} : (Database → Type κ) → Type κ
KeptByInsert P = (c : Command) (d d' : Database) → insert_command c d ≡ ok d' → P d → P d'

module _ {κ} {P : Database → Type κ} (ignores : IgnoresBooks P) where
  count_entry-keeps :
      (s : Source) (t : Times) (name : String) (tx rx : ℕ) (exhausted : List String) (db : Database)
      → P db
      → P ((count_entry s t name tx rx exhausted db).1)
  unfolding count_entry record_usage
  count_entry-keeps s t name tx rx exhausted db h = ignores _ _ _ _ _ _ db h

  pub count_entries-keeps :
      (s : Source) (t : Times) (traffic : Traffic) (exhausted : List String) (db : Database)
      → P db
      → Commits P (count_entries s t traffic exhausted db)
  unfolding count_entries
  count_entries-keeps s t [] exhausted db h = Commits-ok exhausted db h
  count_entries-keeps s t ((name, tx, rx) ∷ traffic) exhausted db h =
      search (commits_rules, count_entries-keeps s t traffic, count_entry-keeps s t name tx rx, h)

  node_entry-keeps :
      (r : Report) (n : Node) (users : List User) (name : String) (tx rx : ℕ) (db : Database)
      → P db
      → P (node_entry r n users name tx rx db)
  unfolding node_entry record_usage
  node_entry-keeps r n users name tx rx db h = ignores _ _ _ _ _ _ db h

  pub node_entries-keeps :
      (r : Report) (n : Node) (users : List User) (traffic : Traffic) (y : Tally) (db : Database)
      → P db
      → Commits P (node_entries r n users traffic y db)
  unfolding node_entries
  node_entries-keeps r n users [] y db h = Commits-ok y db h
  node_entries-keeps r n users ((name, tx, rx) ∷ traffic) y db h = search (
    commits_rules,
    node_entries-keeps r n users traffic,
    node_entry-keeps r n users name tx rx,
    h,
  )

module _ {κ} {P : Database → Type κ} (keep : KeptByInsert P) (casefold : String → String)
    (fresh_id : ℕ → String) where
  pub kick_groups-keeps :
      (groups : List (List String)) (now n : ℕ) (db : Database)
      → P db
      → Commits P (kick_groups casefold fresh_id groups now n db)
  unfolding kick_groups
  kick_groups-keeps [] now n db h = Commits-ok n db h
  kick_groups-keeps (names ∷ groups) now n db h = Commits-bind _ _ (λ (p : ℕ × Database) e.
      kick_groups-keeps groups now (p.0) (p.1)
        ((queue_kick_users-keeps casefold fresh_id now true n db keep names h).at (p.0) (p.1) e))

  pub kick_exhausted-keeps :
      (names : List String) (now : ℕ) (db : Database)
      → P db
      → Commits P (kick_exhausted casefold fresh_id names now db)
  unfolding kick_exhausted
  kick_exhausted-keeps [] now db h = Commits-ok 0 db h
  kick_exhausted-keeps (x ∷ xs) now db h = kick_groups-keeps _ now 0 db h
