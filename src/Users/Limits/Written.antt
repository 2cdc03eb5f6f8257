-- ===== src/Users/Limits/Written.antt =====
-- What `update_proxy_user_limits` of hysteria2_panel.py leaves in the tables of the accounts: the kicks
-- that follow its writes change none of them.
use hysteria2_panel.Prelude.{
  ℕ, ◌≡◌, refl, ◌∙◌, ap, subst, String, Bool, true, false, Option, some, List, [], ◌∷◌, ok, maybe,
  guard-ok, bind-ok, found-ok, ok-injective, Commits, Commits-ok, Commits-if, select, leb,
}
use hysteria2_panel.Nodes.Row.{User, Command}
use hysteria2_panel.Nodes.UsageRows.{OriginUser}
use hysteria2_panel.Nodes.Database.{Database, Error, insert_command}
use hysteria2_panel.Nodes.Kicks.{queue_kick_users}
use hysteria2_panel.Nodes.Kicks.Reach.{queue_kick_users-keeps}
use hysteria2_panel.Nodes.Invariant.Rules.{insert_command-eq}
use hysteria2_panel.Users.{
  user_is, max_traffic_limit, get_proxy_user, same_generation, set_user, positive, starts_before,
  limits_ok,
}
use hysteria2_panel.Users.Limits.{
  Change, given, changed_row, out_of_time, exhausted, set_used_if, kick_if, kick_changed,
  update_proxy_user_limits,
}

-- The accounts, and what machines are credited with for them
abbrev HasAccounts : List User → List OriginUser → Database → Type 0
HasAccounts users origins d = (d.users ≡ users) × (d.origin_users ≡ origins)

HasAccounts-insert :
    (users : List User) (origins : List OriginUser) (c : Command) (d d' : Database)
    → insert_command c d ≡ ok d'
    → HasAccounts users origins d
    → HasAccounts users origins d'
HasAccounts-insert users origins c d d' e h =
    subst (HasAccounts users origins) (insert_command-eq c d d' e).1 h

-- The tables after the writes to the row `u` and before the kicks
abbrev pub written : ℕ → Change → ℕ → User → Database → Database
written id c now u db = set_used_if c.used_traffic_bytes u now (set_user id (changed_row c now) db)

-- The row `u` was found, it is `updated` after the writes, and these are what is left.
pub record IsWritten (id : ℕ) (c : Change) (now : ℕ) (db : Database) (updated : User)
    (db' : Database) : Type 0 where
  pub row : User
  pub read : select (user_is id) db.users ≡ some row
  pub answer : select (user_is id) (written id c now row db).users ≡ some updated
  pub users : db'.users ≡ (written id c now row db).users
  pub origin_users : db'.origin_users ≡ (written id c now row db).origin_users

module _ (casefold : String → String) (fresh_id : ℕ → String) where
  kick_if-keeps :
      (users : List User) (origins : List OriginUser) (test : Bool) (name : String) (now : ℕ)
      (quota_only : Bool) (n : ℕ) (db : Database)
      → HasAccounts users origins db
      → Commits
          (HasAccounts users origins)
          (kick_if casefold fresh_id test name now quota_only n db)
  unfolding kick_if
  kick_if-keeps users origins test name now quota_only n db h =
      Commits-if test (queue_kick_users casefold fresh_id (name ∷ []) now quota_only n db) _
        (λ _.
          queue_kick_users-keeps casefold fresh_id now quota_only n db
            (HasAccounts-insert users origins) (name ∷ []) h)
        (λ _. Commits-ok n db h)

  kick_changed-keeps :
      (u updated v : User) (now : ℕ) (db d : Database)
      → kick_changed casefold fresh_id u updated now db ≡ ok (v, d)
      → (updated ≡ v) × HasAccounts db.users db.origin_users d
  unfolding kick_changed
  kick_changed-keeps u updated v now db d e =
      let (p, first, rest) =
        bind-ok (kick_if casefold fresh_id (out_of_time now updated) u.name now false 0 db) _ e in
      let (q, second, done) =
        bind-ok (kick_if casefold fresh_id (exhausted updated) u.name now true (p.0) (p.1))
          (λ (q : ℕ × Database). ok (updated, q.1)) rest in
      let kept =
        (kick_if-keeps db.users db.origin_users (out_of_time now updated) u.name now false 0 db
            (refl, refl)).at
          (p.0) (p.1) first in
      let still =
        (kick_if-keeps db.users db.origin_users (exhausted updated) u.name now true (p.0) (p.1)
            kept).at
          (q.0) (q.1) second in
      subst (λ (r : User × Database). (updated ≡ r.0) × HasAccounts db.users db.origin_users (r.1))
        (ok-injective done) (refl, still)

  pub update_limits-IsWritten :
      (id : ℕ) (c : Change) (expected : Option ℕ) (now : ℕ) (db db' : Database) (v : User)
      → update_proxy_user_limits casefold fresh_id id c expected now db ≡ ok (v, db')
      → IsWritten id c now db v db'
  unfolding update_proxy_user_limits get_proxy_user
  update_limits-IsWritten id c expected now db db' v e =
      let (_, e1) =
        guard-ok (limits_ok c.device_limit c.traffic_limit_bytes) Error.invalid_request _ e in
      let (_, e2) =
        guard-ok (maybe c.used_traffic_bytes true (λ used. leb used max_traffic_limit))
          Error.invalid_request _ e1 in
      let (_, e3) = guard-ok (maybe c.expires_at true positive) Error.invalid_request _ e2 in
      let (u, here, e4) = bind-ok (get_proxy_user id db) _ e3 in
      let (_, e5) = guard-ok (same_generation expected u) Error.changed_meanwhile _ e4 in
      let (_, e6) =
        guard-ok (starts_before (given c.starts_at u.starts_at) (given c.expires_at u.expires_at))
          Error.invalid_request _ e5 in
      let w = written id c now u db in
      let (updated, there, kicks) =
        bind-ok (get_proxy_user id w) (λ x. kick_changed casefold fresh_id u x now w) e6 in
      let (same, kept) = kick_changed-keeps u updated v now w db' kicks in
      record {
        row = u;
        read = found-ok (select (user_is id) db.users) Error.no_such_user u here;
        answer =
            found-ok (select (user_is id) w.users) Error.no_such_user updated there ∙ ap some same;
        users = kept.0;
        origin_users = kept.1;
      }
