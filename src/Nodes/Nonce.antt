-- ===== src/Nodes/Nonce.antt =====
-- `Database._consume_node_request_nonce` of hysteria2_panel.py: a signed request is accepted once.
-- `accept_node_heartbeat` does the same on its own table, where every row has one purpose.
pub mod Replay
pub mod Writes
use hysteria2_panel.Prelude.{
  ℕ, ◌+◌, Bool, List, [], ◌∷◌, ◌++◌, str_eq, ◌&&◌, ltb, leb, ◌==◌, if◌then◌else◌, row_count, delete,
  Result, ok, guard, ◌>>=◌, ◌>>◌,
}
use hysteria2_panel.Nodes.Row.{NonceRow}
use hysteria2_panel.Nodes.Database.{Database, Error, node_is}

-- `WHERE node_id = ? AND purpose = ?`
abbrev pub same_use : NonceRow → NonceRow → Bool
same_use row r = str_eq r.node_id row.node_id && str_eq r.purpose row.purpose

-- The primary key is `(node_id, purpose, nonce_digest)`.
abbrev pub same_key : NonceRow → NonceRow → Bool
same_key row r = same_use row r && str_eq r.nonce_digest row.nonce_digest

-- How many rows `ORDER BY accepted_at DESC, rowid DESC` puts in front of `r`. The rows stand in the
-- order of `rowid`.
abbrev pub ahead : (NonceRow → Bool) → List NonceRow → NonceRow → List NonceRow → ℕ
ahead used before r after =
    row_count (λ x. used x && ltb r.accepted_at x.accepted_at) before
    + row_count (λ x. used x && leb r.accepted_at x.accepted_at) after

-- `DELETE ... WHERE rowid NOT IN (SELECT rowid ... ORDER BY accepted_at DESC, rowid DESC LIMIT n)`;
-- `before` holds the rows in front of the ones still to do.
unfoldable pub keep_newest : ℕ → (NonceRow → Bool) → List NonceRow → List NonceRow → List NonceRow
keep_newest n used before [] = []
keep_newest n used before (r ∷ after) =
    let rest = keep_newest n used (before ++ r ∷ []) after in
    if used r && leb n (ahead used before r after) then rest else r ∷ rest

unfoldable pub consume_row : NonceRow → List NonceRow → Result Error (List NonceRow)
consume_row row table = do
  guard (row_count (same_key row) table == 0) Error.integrity_error
  ok (
      keep_newest 1024 (same_use row) []
        (delete (λ r. ltb (r.accepted_at + 600) row.accepted_at) (table ++ row ∷ [])))

-- The row refers to its node by a foreign key.
unfoldable pub consume_request_nonce : NonceRow → Database → Result Error Database
consume_request_nonce row db = do
  guard (ltb 0 (row_count (node_is row.node_id) db.nodes)) Error.integrity_error
  table ← consume_row row db.request_nonces
  ok (record db { request_nonces = table })

unfoldable pub consume_heartbeat_nonce : NonceRow → Database → Result Error Database
consume_heartbeat_nonce row db = do
  guard (ltb 0 (row_count (node_is row.node_id) db.nodes)) Error.integrity_error
  table ← consume_row row db.heartbeat_nonces
  ok (record db { heartbeat_nonces = table })
