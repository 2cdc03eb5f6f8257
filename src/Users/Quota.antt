-- ===== src/Users/Quota.antt =====
-- What setting the used traffic of an account keeps: the counters add up to what was set, and the
-- machines are never credited with more than the account.
mod Shares
use hysteria2_panel.Prelude.{
  ℕ, ◌+◌, ◌*◌, ◌/◌, ◌-◌, ◌≤◌, max, ◌≡◌, refl, Bool, List, [], ◌∷◌, Option, none, some, select_holds,
  String, sym, ◌∙◌, ap, subst, ok, inl, inr, arith, select, update, select-update, sum_where, ◌==◌,
  if◌then◌else◌, Bool-cases,
}
use native.Mathlib.Nat.{div-mul-le_self}
use hysteria2_panel.Nodes.Row.{User}
use hysteria2_panel.Nodes.UsageRows.{OriginUser}
use hysteria2_panel.Nodes.Database.{Database}
use hysteria2_panel.Users.{user_is, set_user}
use hysteria2_panel.Users.Limits.{Change, changed_row, set_used_if, update_proxy_user_limits}
use hysteria2_panel.Users.Limits.Written.{written, update_limits-IsWritten}
use hysteria2_panel.Users.Traffic.{
  origin_user_named, scaled, scale_origins, shared_tx, share_used, set_user_used_traffic,
}
use hysteria2_panel.Users.Quota.Shares.{shared_tx-le, shared_tx_grows, share-le}

-- The stored row `w` after the used traffic was set from the row `u` that was read before
adjusted_row : ℕ → User → User
adjusted_row now w = record w { traffic_adjusted_at = some now }

set_row : User → ℕ → ℕ → User → User
unfolding adjusted_row
set_row u used now w =
    let tx = shared_tx u.tx_bytes (u.tx_bytes + u.rx_bytes) used in
    if u.tx_bytes + u.rx_bytes == used
    then adjusted_row now w
    else record (adjusted_row now w) { tx_bytes = tx; rx_bytes = used - tx }

select-set_used :
    (u w : User) (used now : ℕ) (db : Database)
    → select (user_is u.id) db.users ≡ some w
    → select (user_is u.id) (set_user_used_traffic u used now db).users
      ≡ some (set_row u used now w)
unfolding set_user_used_traffic set_row adjusted_row share_used
select-set_used u w used now db e =
    let own = select_holds (user_is u.id) db.users w e in
    let first = select-update (user_is u.id) (adjusted_row now) db.users w e own in
    let tx = shared_tx u.tx_bytes (u.tx_bytes + u.rx_bytes) used in
    let change = λ (x : User). record x { tx_bytes = tx; rx_bytes = used - tx } in
    let second =
      select-update (user_is u.id) change (update (user_is u.id) (adjusted_row now) db.users)
        (adjusted_row now w) first own in
    elim (Bool-cases (u.tx_bytes + u.rx_bytes == used)) [
      | inl same ↦ ground (arith, first)
      | inr other ↦ ground (arith, second)
    ]

-- The account as it stands after its limits and its used traffic were set
pub record IsSetTo (used now : ℕ) (c : Change) (u v : User) : Type 0 where
  pub total : v.tx_bytes + v.rx_bytes ≡ used
  pub adjusted : v.traffic_adjusted_at ≡ some now
  pub same_account : v.name ≡ u.name
  pub limit : v.traffic_limit_bytes ≡ c.traffic_limit_bytes

set_row-IsSetTo :
    (c : Change) (u : User) (used now : ℕ)
    → IsSetTo used now c u (set_row u used now (changed_row c now u))
unfolding set_row adjusted_row
set_row-IsSetTo c u used now = ground (arith, shared_tx-le u.tx_bytes u.rx_bytes used)

-- What the machines are credited with for the account is at most what the account has used, in each
-- direction.
abbrev pub Attributed : User → List OriginUser → Type 0
Attributed u rows =
    (sum_where (origin_user_named u.name) (λ o. o.tx_bytes) rows ≤ u.tx_bytes)
    × (sum_where (origin_user_named u.name) (λ o. o.rx_bytes) rows ≤ u.rx_bytes)

-- The rounded shares, times what they are shares of, are at most the shares of the sum.
module _ (column : OriginUser → ℕ) (test : OriginUser → Bool) (change : OriginUser → OriginUser)
    (n m : ℕ) (stays : (o : OriginUser) → test (change o) ≡ test o)
    (shared : (o : OriginUser) → column (change o) ≡ column o * n / m) where
  scaled-sum :
      (rows : List OriginUser)
      → sum_where test column (update test change rows) * m ≤ sum_where test column rows * n
  unfolding sum_where update
  scaled-sum [] = omega arith
  scaled-sum (o ∷ rows) = elim (Bool-cases (test o)) [
    | inl t ↦ grind (arith, stays o, shared o, div-mul-le_self (column o * n) m, scaled-sum rows)
    | inr f ↦ ground (arith, scaled-sum rows)
  ]

-- The machines' shares of the new counters
scaled-Attributed :
    (u : User) (tx rx now : ℕ) (rows : List OriginUser)
    → Attributed u rows
    → (sum_where (origin_user_named u.name) (λ o. o.tx_bytes) (scale_origins u tx rx now rows) ≤ tx)
      × (sum_where (origin_user_named u.name) (λ o. o.rx_bytes) (scale_origins u tx rx now rows)
          ≤ rx)
scaled-Attributed u tx rx now rows (sent, received) = (
  share-le _ _ tx (max 1 u.tx_bytes) (omega arith)
      (scaled-sum (λ o. o.tx_bytes) (origin_user_named u.name) (scaled u tx rx now) tx
        (max 1 u.tx_bytes) (λ o. refl) (λ o. refl) rows)
      (omega arith),
  share-le _ _ rx (max 1 u.rx_bytes) (omega arith)
      (scaled-sum (λ o. o.rx_bytes) (origin_user_named u.name) (scaled u tx rx now) rx
        (max 1 u.rx_bytes) (λ o. refl) (λ o. refl) rows)
      (omega arith),
)

set_row-Attributed :
    (c : Change) (u : User) (used now : ℕ) (db : Database)
    → Attributed u db.origin_users
    → Attributed
        (set_row u used now (changed_row c now u))
        (set_user_used_traffic u used now db).origin_users
unfolding set_row adjusted_row set_user_used_traffic share_used
set_row-Attributed c u used now db h =
    let tx = shared_tx u.tx_bytes (u.tx_bytes + u.rx_bytes) used in
    ground (
      arith,
      scaled-Attributed u tx (used - tx) now db.origin_users h,
      shared_tx_grows u.tx_bytes u.rx_bytes used,
    )

-- The row of the account after the limits and, where it is asked for, the used traffic
final_row : Option ℕ → Change → ℕ → User → User
final_row none c now u = changed_row c now u
final_row (some used) c now u = set_row u used now (changed_row c now u)

module _ (c : Change) (u : User) (now : ℕ) (db : Database) where
  changed_db : Database
  changed_db = set_user u.id (changed_row c now) db

  select-changed :
      select (user_is u.id) db.users ≡ some u
      → select (user_is u.id) changed_db.users ≡ some (changed_row c now u)
  unfolding changed_db
  select-changed e =
      select-update (user_is u.id) (changed_row c now) db.users u e
        (select_holds (user_is u.id) db.users u e)

  select-used :
      (used : Option ℕ)
      → select (user_is u.id) db.users ≡ some u
      → select (user_is u.id) (set_used_if used u now changed_db).users
        ≡ some (final_row used c now u)
  unfolding final_row
  select-used none e = select-changed e
  select-used (some used) e =
      select-set_used u (changed_row c now u) used now changed_db (select-changed e)

  used-Attributed :
      (used : Option ℕ)
      → Attributed u db.origin_users
      → Attributed (final_row used c now u) (set_used_if used u now changed_db).origin_users
  unfolding final_row changed_db
  used-Attributed none h = h
  used-Attributed (some used) h = set_row-Attributed c u used now changed_db h

some-injective : (x y : User) → some x ≡ some y → x ≡ y
some-injective x y e = cc

module _ (casefold : String → String) (fresh_id : ℕ → String) (id : ℕ) (c : Change)
    (expected : Option ℕ) (now : ℕ) (db db' : Database) (v : User)
    (done : update_proxy_user_limits casefold fresh_id id c expected now db ≡ ok (v, db')) where
  -- The row that the call read, and what it left
  record Final (u : User) : Type 0 where
    read : select (user_is id) db.users ≡ some u
    row : v ≡ final_row c.used_traffic_bytes c now u
    left : select (user_is id) db'.users ≡ some v
    shares :
        db'.origin_users
        ≡ (set_used_if c.used_traffic_bytes u now (changed_db c u now db)).origin_users

  read_row : (u : User) × Final u
  unfolding changed_db
  read_row =
      let w = update_limits-IsWritten casefold fresh_id id c expected now db db' v done in
      let u = w.row in
      let own : id ≡ u.id = ground (arith, select_holds (user_is id) db.users u w.read) in
      let here = subst (λ i. select (user_is i) db.users ≡ some u) own w.read in
      let answer =
        subst (λ i. select (user_is i) (written i c now u db).users ≡ some v) own w.answer in
      (
        u,
        record {
          read = w.read;
          row =
              some-injective v (final_row c.used_traffic_bytes c now u)
                (sym answer ∙ select-used c u now db c.used_traffic_bytes here);
          left = ap (select (user_is id)) w.users ∙ w.answer;
          shares =
              subst (λ i. db'.origin_users ≡ (written i c now u db).origin_users) own
                w.origin_users;
        },
      )

  -- When the limits of an account were changed together with its used traffic, the stored counters add
  -- up to exactly what was asked for, the time of the change is recorded, the traffic limit is the one
  -- that was asked for, and the account keeps its name. The row that is returned is the one stored.
  pub used_is_set_exactly :
      (used : ℕ)
      → c.used_traffic_bytes ≡ some used
      → (u : User) × (select (user_is id) db.users ≡ some u)
        × (select (user_is id) db'.users ≡ some v)
        × IsSetTo used now c u v
  unfolding final_row
  used_is_set_exactly used asked =
      let (u, f) = read_row in
      let row = f.row ∙ ap (λ x. final_row x c now u) asked in
      (u, f.read, f.left, subst (IsSetTo used now c u) (sym row) (set_row-IsSetTo c u used now))

  -- Where the machines are credited, for an account, with at most what the account has used, in each
  -- direction, that still holds after its limits were changed, whether its used traffic was set with
  -- them, up or down, or not.
  pub attribution_is_kept :
      (u : User)
      → select (user_is id) db.users ≡ some u
      → Attributed u db.origin_users
      → (select (user_is id) db'.users ≡ some v) × Attributed v db'.origin_users
  attribution_is_kept u here before =
      let (w, f) = read_row in
      let same = some-injective u w (sym here ∙ f.read) in
      let kept =
        used-Attributed c w now db c.used_traffic_bytes
          (subst (λ x. Attributed x db.origin_users) same before) in
      (
        f.left,
        subst (λ rows. Attributed v rows) (sym f.shares)
            (subst
              (λ x.
                Attributed x
                  (set_used_if c.used_traffic_bytes w now (changed_db c w now db)).origin_users)
              (sym f.row) kept),
      )
