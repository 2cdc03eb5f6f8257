-- ===== src/Nodes/Invariant/Rules.antt =====
-- One rule for each way in which a transaction writes the tables of nodes and commands.
use hysteria2_panel.Prelude.{
  subst, ap, ◌∙◌, str_eq, row_count-update, row_count-update-le, guard-ok, bind-ok, ok-injective,
  ◌>>=◌, Commits, Commits-bind, ◌≡◌, String, Bool, true, ◌&&◌, List, [], ◌∷◌, ◌++◌, All, All-map,
  keyed, select, some, update, row_count, row_count-snoc, update-All, update-All-keyed,
  update-Unique, snoc-Unique, arith, ok, Result, ◌==◌, ltb,
}
use hysteria2_panel.Nodes.Row.{
  Node, Command, Enrollment, is_pending_verification, Kind, NonceRow, is_stop, is_start,
  is_uninstall,
}
use hysteria2_panel.Nodes.Database.{
  Database, Error, Tx, node_is, unacked, command_is, insert_command,
}
use hysteria2_panel.Nodes.Nonce.{consume_row, consume_request_nonce, consume_heartbeat_nonce}
use hysteria2_panel.Nodes.Invariant.{IsServing, IsAwaited, IsEnrolled, Sound, Consistent, awaits}

-- No enrollment notices an UPDATE by which no node registers.
pub IsEnrolled-update :
    (nodes : List Node) (test : Node → Bool) (change : Node → Node) (enrollments : List Enrollment)
    → ((x : Node) → (change x).node_id ≡ x.node_id)
    → ((x : Node)
        → test x ≡ true
        → is_pending_verification (change x).status ≡ true
        → is_pending_verification x.status ≡ true)
    → All (IsEnrolled nodes) enrollments
    → All (IsEnrolled (update test change nodes)) enrollments
IsEnrolled-update nodes test change enrollments same quiet =
    All-map
      (λ e h. record {
        known =
            ap (λ n. ltb 0 n)
              (row_count-update (node_is e.node_id) test change nodes
                (λ x t. ap (λ i. str_eq i e.node_id) (same x)))
            ∙ h.known;
        unused = λ w. omega (
          arith,
          h.unused w,
          row_count-update-le (λ n. node_is e.node_id n && is_pending_verification n.status) test
              change nodes
              (λ x t k. ground (arith, ap (λ i. str_eq i e.node_id) (same x), quiet x t)),
        );
      })
      enrollments

-- An UPDATE of the row of one node
pub update-Consistent :
    (db : Database) (node_id : String) (test : Node → Bool) (change : Node → Node)
    → ((x : Node) → (change x).node_id ≡ x.node_id)
    → ((x : Node) → test x ≡ true → node_is node_id x ≡ true)
    → ((x : Node)
        → test x ≡ true
        → select (node_is node_id) db.nodes ≡ some x
        → IsServing x
        → IsServing (change x))
    → ((x : Node) → test x ≡ true → IsAwaited db.commands x → IsAwaited db.commands (change x))
    → ((x : Node)
        → test x ≡ true
        → is_pending_verification (change x).status ≡ true
        → is_pending_verification x.status ≡ true)
    → Consistent db
    → Consistent (record db { nodes = update test change db.nodes })
update-Consistent db node_id test change same narrow serve await quiet c = record {
  node_key = update-Unique (λ n. n.node_id) test change db.nodes same c.node_key;
  command_key = c.command_key;
  serving =
      update-All-keyed (λ n. n.node_id) IsServing node_id test change db.nodes c.node_key narrow
        serve c.serving;
  awaited = update-All (IsAwaited db.commands) test change db.nodes await c.awaited;
  enrollment_key = c.enrollment_key;
  enrolled = IsEnrolled-update db.nodes test change db.enrollments same quiet c.enrolled;
}

pub awaits-snoc :
    (test : Kind → Bool) (k : String) (commands : List Command) (c : Command)
    → awaits test k commands ≡ true
    → awaits test k (commands ++ c ∷ []) ≡ true
awaits-snoc test k commands c h =
    ground (arith, row_count-snoc (λ (x : Command). unacked k x && test x.kind) c commands)

pub awaits-snoc_self :
    (test : Kind → Bool) (k : String) (commands : List Command) (c : Command)
    → (unacked k c && test c.kind) ≡ true
    → awaits test k (commands ++ c ∷ []) ≡ true
awaits-snoc_self test k commands c h =
    ground (arith, row_count-snoc (λ (x : Command). unacked k x && test x.kind) c commands)

IsAwaited-snoc :
    (commands : List Command) (c : Command) (x : Node)
    → IsAwaited commands x
    → IsAwaited (commands ++ c ∷ []) x
IsAwaited-snoc commands c x a = record {
  stop = λ e. awaits-snoc is_stop x.node_id commands c (a.stop e);
  start = λ e. awaits-snoc is_start x.node_id commands c (a.start e);
  uninstall = λ e. awaits-snoc is_uninstall x.node_id commands c (a.uninstall e);
}

pub insert_command-eq :
    (c : Command) (db db' : Database)
    → insert_command c db ≡ ok db'
    → (row_count (keyed (λ x. x.command_id) c.command_id) db.commands ≡ 0)
      × (record db { commands = db.commands ++ c ∷ [] } ≡ db')
unfolding insert_command
insert_command-eq c db db' e =
    let fresh = row_count (command_is c.command_id) db.commands == 0 in
    let (h, done) =
      guard-ok fresh Error.integrity_error (ok (record db { commands = db.commands ++ c ∷ [] }))
        e in
    (ground arith, ok-injective done)

append-Sound :
    (nodes : List Node) (commands : List Command) (enrollments : List Enrollment) (c : Command)
    → row_count (keyed (λ x. x.command_id) c.command_id) commands ≡ 0
    → Sound nodes commands enrollments
    → Sound nodes (commands ++ c ∷ []) enrollments
append-Sound nodes commands enrollments c fresh s = record {
  node_key = s.node_key;
  command_key = snoc-Unique (λ x. x.command_id) c commands fresh s.command_key;
  serving = s.serving;
  awaited = All-map (IsAwaited-snoc commands c) nodes s.awaited;
  enrollment_key = s.enrollment_key;
  enrolled = s.enrolled;
}

pub insert_command-Consistent :
    (c : Command) (db db' : Database)
    → insert_command c db ≡ ok db'
    → Consistent db
    → Consistent db'
insert_command-Consistent c db db' e h =
    let (fresh, same) = insert_command-eq c db db' e in
    subst Consistent same (append-Sound db.nodes db.commands db.enrollments c fresh h)

pub consume_request-eq :
    (row : NonceRow) (db d : Database)
    → consume_request_nonce row db ≡ ok d
    → (table : List NonceRow) × (record db { request_nonces = table } ≡ d)
unfolding consume_request_nonce
consume_request-eq row db d e =
    let write : List NonceRow → Result Error Database =
      λ table. ok (record db { request_nonces = table }) in
    let (_, rest) =
      guard-ok (ltb 0 (row_count (node_is row.node_id) db.nodes)) Error.integrity_error
        (consume_row row db.request_nonces >>= write) e in
    let (table, _, done) = bind-ok (consume_row row db.request_nonces) write rest in
    (table, ok-injective done)

pub consume_request-Consistent :
    (row : NonceRow) (db db' : Database)
    → consume_request_nonce row db ≡ ok db'
    → Consistent db
    → Consistent db'
consume_request-Consistent row db db' e c =
    let (_, done) = consume_request-eq row db db' e in subst Consistent done c

pub consume_heartbeat-Consistent :
    (row : NonceRow) (db db' : Database)
    → consume_heartbeat_nonce row db ≡ ok db'
    → Consistent db
    → Consistent db'
unfolding consume_heartbeat_nonce
consume_heartbeat-Consistent row db db' e c =
    let write : List NonceRow → Result Error Database =
      λ table. ok (record db { heartbeat_nonces = table }) in
    let (_, rest) =
      guard-ok (ltb 0 (row_count (node_is row.node_id) db.nodes)) Error.integrity_error
        (consume_row row db.heartbeat_nonces >>= write) e in
    let (table, _, done) = bind-ok (consume_row row db.heartbeat_nonces) write rest in
    subst Consistent (ok-injective done) c

-- A transaction that begins with a step which keeps the tables consistent
pub Commits-after :
    {A : Type 0} (m : Result Error Database) (k : Database → Tx A)
    → ((d : Database) → m ≡ ok d → Consistent d)
    → ((d : Database) → Consistent d → Commits Consistent (k d))
    → Commits Consistent (m >>= k)
Commits-after m k keep rest = Commits-bind m k (λ d e. rest d (keep d e))
