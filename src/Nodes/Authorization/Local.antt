-- ===== src/Nodes/Authorization/Local.antt =====
-- Whether the panel's own server may let a connection in: `authorize_local_participant` of `class
-- Database` in hysteria2_panel.py. A new lease's id is an argument.
use hysteria2_panel.Prelude.{
  ℕ, ◌+◌, ◌-◌, ◌≤◌, ◌<◌, ◌≡◌, subst, sym, max, min, String, Bool, true, false, ◌&&◌, some, List, [],
  ◌∷◌, ◌++◌, ok, arith, guard, maybe, ◌>>◌, select, select_holds, delete, row_count, row_count-snoc,
  row_count-delete-le, ◌==◌, leb, ltb, if◌then◌else◌, is_null, str_eq, nocase_eq, All, All-select,
  Commits, commits_rules,
}
use hysteria2_panel.Nodes.Row.{Lease, User, Tier, standard, premium}
use hysteria2_panel.Nodes.Database.{Database, Error, Tx, or_return, Commits-or_return}
use hysteria2_panel.Nodes.Authorization.{
  ready_count, fresh_count, places, remote_online, holds_lease,
}
use hysteria2_panel.Nodes.Authorization.Capacity.{tier_of}

-- The standard account of a name that may connect here now
abbrev pub local_account : String → ℕ → User → Bool
local_account name now u =
    nocase_eq u.name name
    && u.enabled
    && u.user_type == 0
    && maybe u.starts_at true (λ t. leb t now)
    && maybe u.expires_at true (λ t. ltb now t)
    && is_null u.local_drain_started_at

-- `ORDER BY created_at DESC, rowid DESC LIMIT 4096`; a lease that has not expired stays in any case.
unfoldable pub trim_leases : ℕ → List Lease → List Lease → List Lease
trim_leases now front [] = []
trim_leases now front (l ∷ back) =
    let rest = trim_leases now (front ++ l ∷ []) back in
    let newer =
      row_count (λ (x : Lease). ltb l.created_at x.created_at) front
      + row_count (λ (x : Lease). leb l.created_at x.created_at) back in
    if leb 4096 newer && ltb l.expires_at now then rest else l ∷ rest

abbrev pub recent_leases : ℕ → List Lease → List Lease
recent_leases now leases = trim_leases now [] (delete (λ l. ltb (l.expires_at + 600) now) leases)

abbrev pub lease_of : String → String → ℕ → ℕ → Lease
lease_of lease_id name now lease_seconds = record {
  decision_id = lease_id;
  user_name = name;
  created_at = now;
  expires_at = now + max 1 (min 5 lease_seconds);
}

abbrev pub may_connect : (String → ℕ) → ℕ → Database → User → Bool
may_connect local_online now db u =
    ltb (u.tx_bytes + u.rx_bytes) u.traffic_limit_bytes
    && ltb (places standard local_online u.name now db) u.device_limit

-- The lease is stored, where the connection is let in.
abbrev pub grant_lease : Lease → ℕ → Database → Tx Bool
grant_lease l now db = do
  guard (row_count (λ (x : Lease). str_eq x.decision_id l.decision_id) db.leases == 0)
      Error.integrity_error
  ok (true, record db { leases = recent_leases now (db.leases ++ l ∷ []) })

abbrev pub decide_local : (String → ℕ) → String → ℕ → ℕ → Database → User → Tx Bool
decide_local local_online lease_id now lease_seconds db u =
    if may_connect local_online now db u
    then grant_lease (lease_of lease_id u.name now lease_seconds) now db
    else ok (false, record db { leases = recent_leases now db.leases })

abbrev pub check_local : (String → ℕ) → String → String → ℕ → ℕ → ℕ → Database → Tx Bool
check_local local_online lease_id name now freshness lease_seconds db = do
  guard (fresh_count standard (now - freshness) db == ready_count standard db) Error.integrity_error
  maybe (select (local_account name now) db.users) (ok (false, db))
      (decide_local local_online lease_id now lease_seconds db)

unfoldable pub authorize_local_participant :
    (String → ℕ) → String → String → ℕ → ℕ → ℕ → Database → Tx Bool
authorize_local_participant local_online lease_id name now freshness lease_seconds db =
    or_return false db (check_local local_online lease_id name now freshness lease_seconds db)

row_count-trim_leases-le :
    (test : Lease → Bool) (now : ℕ) (front back : List Lease)
    → row_count test (trim_leases now front back) ≤ row_count test back
unfolding trim_leases row_count
row_count-trim_leases-le test now front [] = omega arith
row_count-trim_leases-le test now front (l ∷ back) =
    ground (arith, row_count-trim_leases-le test now (front ++ l ∷ []) back)

row_count-recent_leases-le :
    (test : Lease → Bool) (now : ℕ) (leases : List Lease)
    → row_count test (recent_leases now leases) ≤ row_count test leases
row_count-recent_leases-le test now leases = omega (
  arith,
  row_count-trim_leases-le test now [] (delete (λ l. ltb (l.expires_at + 600) now) leases),
  row_count-delete-le test (λ l. ltb (l.expires_at + 600) now) leases,
)

module _ (local_online : String → ℕ) (u : User) (now : ℕ) (db : Database)
    (alone : All (λ x. nocase_eq x.name u.name ≡ true → x ≡ u) db.users) where
  abbrev used : Database → ℕ
  used d = places (tier_of u) local_online u.name now d

  abbrev Fits : Database → Type 0
  Fits d = used d ≤ max (used db) u.device_limit

  -- Fewer leases take fewer places, and a premium account takes none by them.
  places-leases :
      (tier : Tier) (leases : List Lease)
      → places tier local_online u.name now (record db { leases = leases })
        ≤ places tier local_online u.name now db
          + (row_count (holds_lease u.name now) leases
              - row_count (holds_lease u.name now) db.leases)
  unfolding places remote_online
  places-leases standard leases = omega arith
  places-leases premium leases = omega arith

  cleaned-Fits : Fits (record db { leases = recent_leases now db.leases })
  cleaned-Fits = omega (
    arith,
    places-leases (tier_of u) (recent_leases now db.leases),
    row_count-recent_leases-le (holds_lease u.name now) now db.leases,
  )

  granted-Fits :
      (l : Lease)
      → (holds_lease u.name now l ≡ true → used db < u.device_limit)
      → Fits (record db { leases = recent_leases now (db.leases ++ l ∷ []) })
  granted-Fits l room = ground (
    arith,
    room,
    places-leases (tier_of u) (recent_leases now (db.leases ++ l ∷ [])),
    row_count-recent_leases-le (holds_lease u.name now) now (db.leases ++ l ∷ []),
    row_count-snoc (holds_lease u.name now) l db.leases,
  )

  account-room :
      (lease_id name : String) (lease_seconds : ℕ) (x : User)
      → select (local_account name now) db.users ≡ some x
      → may_connect local_online now db x ≡ true
      → holds_lease u.name now (lease_of lease_id x.name now lease_seconds) ≡ true
      → used db < u.device_limit
  account-room lease_id name lease_seconds x found_it may h =
      let one =
        All-select (λ y. nocase_eq y.name u.name ≡ true → y ≡ u) (local_account name now) db.users x
          alone found_it in
      let same : x ≡ u = one (ground arith) in
      let account = select_holds (local_account name now) db.users x found_it in
      let room : places standard local_online x.name now db < x.device_limit = ground arith in
      let standard_account : tier_of x ≡ standard = ground arith in
      subst (λ y. places (tier_of y) local_online y.name now db < y.device_limit) same
        (subst (λ t. places t local_online x.name now db < x.device_limit) (sym standard_account)
          room)

  check_local-Fits :
      (lease_id name : String) (freshness lease_seconds : ℕ)
      → Commits Fits (check_local local_online lease_id name now freshness lease_seconds db)
  check_local-Fits lease_id name freshness lease_seconds =
      let start : Fits db = omega arith in
      search (commits_rules, start, cleaned-Fits, granted-Fits, account-room) depth 14

-- The panel's own server, too, lets an account in only up to its number of devices: after the check
-- the account takes no more places than before or than that number, whichever is more. No other
-- account may have its name.
pub local_authorization_keeps_limit :
    (local_online : String → ℕ) (lease_id name : String) (now freshness lease_seconds : ℕ)
    (u : User) (db db' : Database) (b : Bool)
    → All (λ x. nocase_eq x.name u.name ≡ true → x ≡ u) db.users
    → authorize_local_participant local_online lease_id name now freshness lease_seconds db
      ≡ ok (b, db')
    → places (tier_of u) local_online u.name now db'
      ≤ max (places (tier_of u) local_online u.name now db) u.device_limit
unfolding authorize_local_participant
local_authorization_keeps_limit local_online lease_id name now freshness lease_seconds u db db' b
      alone e =
    let checked =
      check_local-Fits local_online u now db alone lease_id name freshness lease_seconds in
    let all =
      Commits-or_return false db
        (check_local local_online lease_id name now freshness lease_seconds db) (omega arith)
        checked in
    all.at b db' e
