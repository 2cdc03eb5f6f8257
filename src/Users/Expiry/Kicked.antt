-- ===== src/Users/Expiry/Kicked.antt =====
-- What a run of `expire_proxy_users` leaves: no account that is due, and a kick of each on every node.
use hysteria2_panel.Prelude.{
  ℕ, ◌≤◌, ◌<◌, ◌≡◌, refl, ◌∙◌, ap, subst, String, Bool, true, false, List, [], ◌∷◌, arith, ok, err,
  Commits, Commits-ok, Commits-then, select_all, update, row_count, ltb, length, All,
}
use hysteria2_panel.Nodes.Row.{User, Command}
use hysteria2_panel.Nodes.Database.{Database, Error, Tx, insert_command}
use hysteria2_panel.Nodes.Kicks.{contains, queue_kick_users}
use hysteria2_panel.Nodes.Kicks.Reach.{
  awaits_kick, takes_kick, queue_kick_users-keeps, queue_kick_users-reaches,
}
use hysteria2_panel.Nodes.Invariant.Rules.{insert_command-eq}
use hysteria2_panel.Users.Expiry.{
  due_account, expired_row, user_names, expire_rows, expire_proxy_users,
}

none_due :
    (now : ℕ) (users : List User)
    → row_count (due_account now) (update (due_account now) (expired_row now) users) ≡ 0
unfolding row_count update
none_due now [] = refl
none_due now (u ∷ users) = ground (arith, none_due now users)

length-user_names :
    (test : User → Bool) (users : List User)
    → length (user_names (select_all test users)) ≡ row_count test users
unfolding select_all row_count
length-user_names test [] = refl
length-user_names test (u ∷ users) = ground (arith, length-user_names test users)

-- An account that is due stays due.
still_due :
    (now later : ℕ) (users : List User)
    → now ≤ later
    → row_count (due_account now) users ≤ row_count (due_account later) users
unfolding row_count
still_due now later [] h = omega arith
still_due now later (u ∷ users) h = ground (arith, still_due now later users h)

abbrev pub due_names : ℕ → Database → List String
due_names now db = user_names (select_all (due_account now) db.users)

-- No account is due, and the account `name` is kicked from the node `k`.
pub record ExpiryEnforced (now : ℕ) (k name : String) (db : Database) : Type 0 where
  pub nobody_due : row_count (due_account now) db.users ≡ 0
  pub kicked : awaits_kick k name db ≡ true

HasUsers : List User → Database → Type 0
HasUsers users d = d.users ≡ users

HasUsers-insert :
    (users : List User) (c : Command) (d d' : Database)
    → insert_command c d ≡ ok d'
    → HasUsers users d
    → HasUsers users d'
unfolding HasUsers
HasUsers-insert users c d d' e h = subst (λ x. x.users ≡ users) (insert_command-eq c d d' e).1 h

module _ (casefold : String → String) (fresh_id : ℕ → String) (now : ℕ) (db : Database) where
  expire_rows-expires :
      (k name : String) (users : List User)
      → contains name (user_names users) ≡ true
      → ltb 0 (row_count (takes_kick k) db.nodes) ≡ true
      → Commits (ExpiryEnforced now k name) (expire_rows casefold fresh_id users now db)
  unfolding expire_rows HasUsers contains
  expire_rows-expires k name [] h t = absurd (cc)
  expire_rows-expires k name (u ∷ users) h t =
      let names = user_names (u ∷ users) in
      let disabled = update (due_account now) (expired_row now) db.users in
      let start = record db { users = disabled } in
      let queue = queue_kick_users casefold fresh_id names now false 0 start in
      Commits-then queue (λ p. ok (names, p.1))
        (queue_kick_users-keeps casefold fresh_id now false 0 start (HasUsers-insert disabled) names
          refl)
        (λ n d e same. Commits-ok names d (record {
          nobody_due = ap (row_count (due_account now)) same ∙ none_due now db.users;
          kicked =
              (queue_kick_users-reaches casefold fresh_id now false 0 start k name names h t).at n d
                e;
        }))

  -- When the accounts that are due were disabled, none that is due is left enabled, and every node
  -- that takes commands has a kick of each of them that it has not acknowledged.
  pub expired_are_kicked :
      (k name : String) (names : List String) (db' : Database)
      → expire_proxy_users casefold fresh_id now db ≡ ok (names, db')
      → contains name (due_names now db) ≡ true
      → ltb 0 (row_count (takes_kick k) db.nodes) ≡ true
      → ExpiryEnforced now k name db'
  unfolding expire_proxy_users
  expired_are_kicked k name names db' e h t =
      (expire_rows-expires k name (select_all (due_account now) db.users) h t).at names db' e

  expire_rows-refuses :
      (users : List User)
      → 1000 < length (user_names users)
      → expire_rows casefold fresh_id users now db ≡ err Error.invalid_request
  unfolding expire_rows queue_kick_users
  expire_rows-refuses [] h = absurd (omega arith)
  expire_rows-refuses (u ∷ users) h = ground arith

too_many_refused :
    (casefold : String → String) (fresh_id : ℕ → String) (now later : ℕ) (db : Database)
    → now ≤ later
    → 1000 < row_count (due_account now) db.users
    → expire_proxy_users casefold fresh_id later db ≡ err Error.invalid_request
unfolding expire_proxy_users
too_many_refused casefold fresh_id now later db h many =
    expire_rows-refuses casefold fresh_id later db (select_all (due_account later) db.users) (
      omega (arith, length-user_names (due_account later) db.users, still_due now later db.users h))

-- The tables after runs at some times, where nothing else is done between them: a run that raises
-- leaves the tables as they were.
unfoldable pub after_run : Database → Tx (List String) → Database
after_run db (ok (names, d)) = d
after_run db (err e) = db

unfoldable pub after_runs : (String → String) → (ℕ → String) → List ℕ → Database → Database
unfolding after_run
after_runs casefold fresh_id [] db = db
after_runs casefold fresh_id (at ∷ times) db =
    after_runs casefold fresh_id times (after_run db (expire_proxy_users casefold fresh_id at db))

-- Where more than a thousand accounts are due, a run at that time or later raises, and any number of
-- such runs leaves the tables as they are: while nothing else changes them, none of these accounts is
-- disabled and none is kicked.
pub too_many_expired_stay_enabled :
    (casefold : String → String) (fresh_id : ℕ → String) (now : ℕ) (times : List ℕ) (db : Database)
    → 1000 < row_count (due_account now) db.users
    → All (λ at. now ≤ at) times
    → All (λ at. expire_proxy_users casefold fresh_id at db ≡ err Error.invalid_request) times
      × (after_runs casefold fresh_id times db ≡ db)
unfolding after_runs
too_many_expired_stay_enabled casefold fresh_id now [] db many later = (tt, refl)
too_many_expired_stay_enabled casefold fresh_id now (at ∷ times) db many (h, later) =
    let refused = too_many_refused casefold fresh_id now at db h many in
    let (rest, kept) = too_many_expired_stay_enabled casefold fresh_id now times db many later in
    ((refused, rest), ap (λ r. after_runs casefold fresh_id times (after_run db r)) refused ∙ kept)
