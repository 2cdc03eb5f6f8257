-- ===== src/Nodes/Commands/Delivery.antt =====
-- How a node fetches its commands: `poll_node_commands` of `class Database` in hysteria2_panel.py.
use hysteria2_panel.Prelude.{
  ℕ, zero, suc, ◌+◌, ◌*◌, ◌^◌, String, Bool, false, not, ◌&&◌, ◌||◌, Option, none, some, List, [],
  ◌∷◌, ◌++◌, map, ok, maybe, found, ◌>>=◌, select, select_all, update, ◌==◌, leb, ltb, min, length,
  if◌then◌else◌, is_set, str_eq, json_text, json_number, json_joined, nocase_eq, str_le,
}
use hysteria2_panel.Nodes.Row.{
  Node, Command, Kind, kick_users, refresh_snapshot, flush_traffic, stop_data_plane,
  stop_data_plane_if_idle, start_data_plane, uninstall_node, NonceRow, User,
  is_pending_verification, is_ready, is_archived, is_kick,
}
use hysteria2_panel.Nodes.Database.{Database, Error, Tx, node_is, unacked, command_is}
use hysteria2_panel.Nodes.Nonce.{consume_request_nonce}

-- `ORDER BY next_attempt_at, created_at, command_id`
pub before : Command → Command → Bool
before a b =
    ltb a.next_attempt_at b.next_attempt_at
    || a.next_attempt_at == b.next_attempt_at
      && (ltb a.created_at b.created_at
          || a.created_at == b.created_at && str_le a.command_id b.command_id)

unfoldable pub insert_ordered : Command → List Command → List Command
insert_ordered c [] = c ∷ []
insert_ordered c (d ∷ ds) =
    let rest = insert_ordered c ds in if before c d then c ∷ d ∷ ds else d ∷ rest

unfoldable pub ordered : List Command → List Command
ordered [] = []
ordered (c ∷ cs) = insert_ordered c (ordered cs)

unfoldable pub first : ℕ → List Command → List Command
first zero cs = []
first (suc n) [] = []
first (suc n) (c ∷ cs) = c ∷ first n cs

-- The commands that are due, at most 32
unfoldable pub due : String → ℕ → Database → List Command
unfolding before insert_ordered ordered first
due node_id now db =
    first 32
      (ordered (select_all (λ c. unacked node_id c && leb c.next_attempt_at now) db.commands))

-- `generations.get(name)`
generation_of : String → List (String × ℕ) → Option ℕ
generation_of name [] = none
generation_of name ((k, g) ∷ rest) = if str_eq k name then some g else generation_of name rest

-- The account still has the generation for which the kick was queued, and is still over its quota.
still_exhausted : List User → List (String × ℕ) → String → Bool
unfolding generation_of
still_exhausted users generations name =
    maybe (select (λ (u : User). nocase_eq u.name name) users) false λ u.
      maybe (generation_of name generations) false (λ g. u.generation == g)
      && leb u.traffic_limit_bytes (u.tx_bytes + u.rx_bytes)

-- The payload that is sent: a quota kick keeps only the accounts that are still exhausted.
unfoldable pub eligible : List User → Command → List String
unfolding still_exhausted
eligible users c =
    if is_kick c.kind
    then maybe c.quota_generations c.payload
        (λ generations. select_all (still_exhausted users generations) c.payload)
    else c.payload

-- A quota kick with nobody left to kick is closed, not sent.
unfoldable pub superseded : List User → Command → Bool
unfolding eligible
superseded users c = is_kick c.kind && is_set c.quota_generations && length (eligible users c) == 0

-- What a command on the wire holds: its id, its kind and its payload
pub record Sent : Type 0 where
  pub command_id : String
  pub kind : Kind
  pub users : List String

kind_length : Kind → ℕ
kind_length kick_users = 10
kind_length refresh_snapshot = 16
kind_length flush_traffic = 13
kind_length stop_data_plane = 15
kind_length stop_data_plane_if_idle = 23
kind_length start_data_plane = 16
kind_length uninstall_node = 14

-- `{"commandId":…,"kind":…,"payload":…}`, where the payload is `{"users":[…]}` or `{}`
sent_size : Sent → ℕ
unfolding kind_length
sent_size s =
    33
    + json_text s.command_id
    + kind_length s.kind
    + 2
    + (if is_kick s.kind then 12 + json_joined (map json_text s.users) else 2)

-- `{"commands":[…],"polledAt":…}`
unfoldable pub response_size : List Sent → ℕ → ℕ
unfolding sent_size
response_size commands now = 13 + json_joined (map sent_size commands) + 13 + json_number now + 1

unfoldable pub delay_of : Kind → ℕ → ℕ
delay_of kind attempt = if is_kick kind then 2 else min 300 (2 ^ min attempt 8)

unfoldable pub mark_superseded : String → ℕ → Database → Database
mark_superseded command_id now db = record db {
  commands =
      update (command_is command_id)
        (λ c. record c { acked_at = some now; last_error = some "QUOTA_SUPERSEDED" }) db.commands;
}

-- What is written when `row` is sent
unfoldable pub mark_delivered : String → Command → ℕ → Database → Database
unfolding delay_of
mark_delivered node_id row now db =
    let attempt = min 10 (row.attempts + 1) in
    record db {
      commands =
          update (λ c. command_is row.command_id c && unacked node_id c)
            (λ c. record c {
              attempts = attempt;
              delivered_at = some now;
              next_attempt_at = now + delay_of row.kind attempt;
            })
            db.commands;
    }

unfoldable pub sent_of : List User → Command → Sent
unfolding eligible
sent_of users row = record {
  command_id = row.command_id;
  kind = row.kind;
  users = eligible users row;
}

-- The loop of the poll: it ends early at a command with which the response would pass 64 KiB.
unfoldable pub deliver : String → ℕ → List Command → List Sent → Database → List Sent × Database
deliver node_id now [] commands db = (commands, db)
deliver node_id now (row ∷ rows) commands db =
    let skipped = deliver node_id now rows commands (mark_superseded row.command_id now db) in
    let candidate = commands ++ sent_of db.users row ∷ [] in
    let sent = deliver node_id now rows candidate (mark_delivered node_id row now db) in
    if superseded db.users row
    then skipped
    else if ltb (64 * 1024) (response_size candidate now)
    then (commands, db)
    else sent

abbrev pub poll_nonce : String → String → ℕ → NonceRow
poll_nonce node_id nonce_digest accepted_at = record {
  node_id = node_id;
  purpose = "command-poll";
  nonce_digest = nonce_digest;
  accepted_at = accepted_at;
}

-- The node may poll: it is verified and under the protocol.
abbrev pub polling_node : String → Node → Bool
polling_node node_id x =
    node_is node_id x
    && is_ready x.policy_state
    && is_pending_verification x.status
    && is_set x.verified_at
    && not (is_archived x.lifecycle_state)

abbrev pub poll_reply : String → ℕ → Database → Tx (List Sent)
poll_reply node_id at db = ok (deliver node_id at (due node_id at db) [] db)

-- The caller answers an error with `None`: nothing was written.
unfoldable pub poll_node_commands : String → String → ℕ → Database → Tx (List Sent)
poll_node_commands node_id nonce_digest accepted_at db = do
  db' ← consume_request_nonce (poll_nonce node_id nonce_digest accepted_at) db
  n ← found (select (polling_node node_id) db'.nodes) Error.integrity_error
  poll_reply node_id accepted_at db'
