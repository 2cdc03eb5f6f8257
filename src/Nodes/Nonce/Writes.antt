-- ===== src/Nodes/Nonce/Writes.antt =====
-- What the nonce of a request writes.
use hysteria2_panel.Prelude.{
  ◌≡◌, List, ok, Result, guard-ok, bind-ok, ok-injective, ◌>>=◌, ltb, row_count,
}
use hysteria2_panel.Nodes.Row.{NonceRow}
use hysteria2_panel.Nodes.Database.{Database, Error, node_is}
use hysteria2_panel.Nodes.Nonce.{consume_row, consume_request_nonce}

-- The nonce of a request is all that it writes.
pub consumed :
    (row : NonceRow) (db d : Database)
    → consume_request_nonce row db ≡ ok d
    → (table : List NonceRow) × (record db { request_nonces = table } ≡ d)
unfolding consume_request_nonce
consumed row db d e =
    let write : List NonceRow → Result Error Database =
      λ table. ok (record db { request_nonces = table }) in
    let (_, rest) =
      guard-ok (ltb 0 (row_count (node_is row.node_id) db.nodes)) Error.integrity_error
        (consume_row row db.request_nonces >>= write) e in
    let (table, _, done) = bind-ok (consume_row row db.request_nonces) write rest in
    (table, ok-injective done)
