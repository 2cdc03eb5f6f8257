-- ===== src/Users/Expiry.antt =====
-- `expire_proxy_users` of `class Database` in hysteria2_panel.py.
pub mod Kicked
use hysteria2_panel.Prelude.{
  ℕ, ◌+◌, String, Bool, false, ◌&&◌, some, List, [], ◌∷◌, ok, maybe, ◌>>=◌, select_all, update, leb,
  map,
}
use hysteria2_panel.Nodes.Row.{User}
use hysteria2_panel.Nodes.Database.{Database, Tx}
use hysteria2_panel.Nodes.Kicks.{queue_kick_users}

-- `enabled = 1 AND expires_at IS NOT NULL AND expires_at <= now`
abbrev pub due_account : ℕ → User → Bool
due_account now u = u.enabled && maybe u.expires_at false (λ t. leb t now)

abbrev pub expired_row : ℕ → User → User
expired_row now u = record u {
  enabled = false;
  generation = u.generation + 1;
  updated_at = now;
  local_drain_started_at = some now;
}

abbrev pub user_names : List User → List String
user_names users = map (λ (u : User). u.name) users

module _ (casefold : String → String) (fresh_id : ℕ → String) where
  unfoldable pub expire_rows : List User → ℕ → Database → Tx (List String)
  expire_rows [] now db = ok ([], db)
  expire_rows (u ∷ users) now db = do
    let names = user_names (u ∷ users)
    let disabled = record db { users = update (due_account now) (expired_row now) db.users }
    (n, db') ← queue_kick_users casefold fresh_id names now false 0 disabled
    ok (names, db')

  unfoldable pub expire_proxy_users : ℕ → Database → Tx (List String)
  unfolding expire_rows
  expire_proxy_users now db = expire_rows (select_all (due_account now) db.users) now db
