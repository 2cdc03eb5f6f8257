-- ===== src/Nodes/Invariant/Commands.antt =====
-- The transactions of `Nodes.Commands` keep the tables consistent.
pub mod Acks
use hysteria2_panel.Prelude.{
  ℕ, ◌≡◌, ◌∙◌, ◌*◌, if◌then◌else◌, refl, sym, ap, String, Bool, true, false, ◌&&◌, List, [], ◌∷◌,
  ◌++◌, arith, Commits, Commits-ok_pair, Commits-bind, Commits-found, found, ◌>>=◌, ◌>>◌,
  commits_rules, select, update, row_count-update-All, update-All, update-Unique, All, All-map,
  Unique-one, ltb, if_cases, str_eq,
}
use hysteria2_panel.Nodes.Row.{
  Command, Kind, User, kick_users, is_stop, is_start, is_uninstall, is_kick,
}
use hysteria2_panel.Nodes.Database.{Database, Error, unacked, command_is}
use hysteria2_panel.Nodes.Nonce.{consume_request_nonce}
use hysteria2_panel.Nodes.Commands.{queue_node_command}
use hysteria2_panel.Nodes.Commands.Delivery.{
  superseded, sent_of, response_size, mark_superseded, mark_delivered, Sent, deliver, due,
  poll_nonce, polling_node, poll_reply, poll_node_commands,
}
use hysteria2_panel.Nodes.Commands.Due.{due-All}
use hysteria2_panel.Nodes.Invariant.{Consistent, awaits}
use hysteria2_panel.Nodes.Invariant.Rules.{insert_command-Consistent, consume_request-Consistent}

pub queue_node_command-Consistent :
    (command_id node_id : String) (kind : Kind) (users : List String) (at : ℕ) (db : Database)
    → Consistent db
    → Commits Consistent (queue_node_command command_id node_id kind users at db)
unfolding queue_node_command
queue_node_command-Consistent command_id node_id kind users at db c =
    search (commits_rules, c, insert_command-Consistent) depth 12

-- An UPDATE of commands changes none of the pending commands of the three kinds that a node waits
-- for.
commands-Consistent :
    (db : Database) (test : Command → Bool) (change : Command → Command)
    → ((y : Command) → (change y).command_id ≡ y.command_id)
    → All
        (λ y.
          test y ≡ true
          → (k : String) (t : Kind → Bool) → t kick_users ≡ false
          → (unacked k (change y) && t (change y).kind) ≡ (unacked k y && t y.kind))
        db.commands
    → Consistent db
    → Consistent (record db { commands = update test change db.commands })
commands-Consistent db test change same keep c = record {
  node_key = c.node_key;
  command_key = update-Unique (λ y. y.command_id) test change db.commands same c.command_key;
  serving = c.serving;
  awaited =
      All-map
        (λ x a. record {
          stop = λ w. kept is_stop x.node_id refl ∙ a.stop w;
          start = λ w. kept is_start x.node_id refl ∙ a.start w;
          uninstall = λ w. kept is_uninstall x.node_id refl ∙ a.uninstall w;
        })
        db.nodes c.awaited;
  enrollment_key = c.enrollment_key;
  enrolled = c.enrolled;
}
  where
    kept :
        (t : Kind → Bool) (k : String)
        → t kick_users ≡ false
        → awaits t k (update test change db.commands) ≡ awaits t k db.commands
    kept t k quiet =
        ap (λ n. ltb 0 n)
          (row_count-update-All (λ (y : Command). unacked k y && t y.kind) test change db.commands
            (All-map (λ y h e. h e k t quiet) db.commands keep))

-- The rows of the command's id are of its kind.
Agrees : Command → Command → Type 0
Agrees r y = command_is r.command_id y ≡ true → y.kind ≡ r.kind

superseded-Consistent :
    (db : Database) (row : Command) (now : ℕ)
    → is_kick row.kind ≡ true
    → All (Agrees row) db.commands
    → Consistent db
    → Consistent (mark_superseded row.command_id now db)
unfolding mark_superseded Agrees
superseded-Consistent db row now kick agree c =
    commands-Consistent db (command_is row.command_id) _ (λ y. refl)
      (All-map (λ y a e k t quiet. ground (arith, a e)) db.commands agree) c

delivered-Consistent :
    (db : Database) (node_id : String) (row : Command) (now : ℕ)
    → Consistent db
    → Consistent (mark_delivered node_id row now db)
unfolding mark_delivered
delivered-Consistent db node_id row now c =
    commands-Consistent db (λ y. command_is row.command_id y && unacked node_id y) _ (λ y. refl)
      (All-map (λ y a e k t quiet. refl) db.commands
        (Unique-one (λ y. y.command_id) db.commands c.command_key))
      c

Agrees-update :
    (r : Command) (test : Command → Bool) (change : Command → Command) (commands : List Command)
    → ((y : Command) → (change y).command_id ≡ y.command_id)
    → ((y : Command) → (change y).kind ≡ y.kind)
    → All (Agrees r) commands
    → All (Agrees r) (update test change commands)
unfolding Agrees
Agrees-update r test change commands same kind =
    update-All (Agrees r) test change commands
      (λ y t a e. kind y ∙ a (ap (λ k. str_eq k r.command_id) (sym (same y)) ∙ e))

superseded-kick :
    (users : List User) (r : Command) → superseded users r ≡ true → is_kick r.kind ≡ true
unfolding superseded
superseded-kick users r h = ground arith

-- The loop of the poll keeps the tables consistent, whatever it sends.
deliver-Consistent :
    (node_id : String) (now : ℕ) (rows : List Command) (sent : List Sent) (db : Database)
    → Consistent db
    → All (λ r. All (Agrees r) db.commands) rows
    → Consistent ((deliver node_id now rows sent db).1)
unfolding deliver mark_superseded mark_delivered
deliver-Consistent node_id now [] sent db c h = c
deliver-Consistent node_id now (row ∷ rows) sent db c (agree, h) =
    let candidate = sent ++ sent_of db.users row ∷ [] in
    let skipped = deliver node_id now rows sent (mark_superseded row.command_id now db) in
    let more = deliver node_id now rows candidate (mark_delivered node_id row now db) in
    let full = ltb (64 * 1024) (response_size candidate now) in
    if_cases (λ (p : List Sent × Database). Consistent (p.1)) (superseded db.users row) skipped
      (if full then (sent, db) else more)
      (λ s.
        deliver-Consistent node_id now rows sent (mark_superseded row.command_id now db)
          (superseded-Consistent db row now (superseded-kick db.users row s) agree c)
          (All-map kept_superseded rows h))
      (λ _.
        if_cases (λ (p : List Sent × Database). Consistent (p.1)) full (sent, db) more (λ _. c)
          (λ _.
            deliver-Consistent node_id now rows candidate (mark_delivered node_id row now db)
              (delivered-Consistent db node_id row now c) (All-map kept_delivered rows h)))
  where
    kept_superseded :
        (r : Command)
        → All (Agrees r) db.commands
        → All (Agrees r) (mark_superseded row.command_id now db).commands
    kept_superseded r a = Agrees-update r _ _ db.commands (λ y. refl) (λ y. refl) a

    kept_delivered :
        (r : Command)
        → All (Agrees r) db.commands
        → All (Agrees r) (mark_delivered node_id row now db).commands
    kept_delivered r a = Agrees-update r _ _ db.commands (λ y. refl) (λ y. refl) a

agreed :
    (node_id : String) (now : ℕ) (db : Database)
    → Consistent db
    → All (λ r. All (Agrees r) db.commands) (due node_id now db)
unfolding Agrees
agreed node_id now db c =
    due-All (λ r. All (Agrees r) db.commands) node_id now db
      (All-map (λ r h. All-map (λ y f e. ap (λ y'. y'.kind) (f e)) db.commands h) db.commands
        (Unique-one (λ y. y.command_id) db.commands c.command_key))

polled :
    (node_id : String) (now : ℕ) (db : Database)
    → Consistent db
    → Commits Consistent (poll_reply node_id now db)
polled node_id now db c =
    Commits-ok_pair (deliver node_id now (due node_id now db) [] db)
      (deliver-Consistent node_id now (due node_id now db) [] db c (agreed node_id now db c))

pub poll_node_commands-Consistent :
    (node_id nonce_digest : String) (at : ℕ) (db : Database)
    → Consistent db
    → Commits Consistent (poll_node_commands node_id nonce_digest at db)
unfolding poll_node_commands
poll_node_commands-Consistent node_id nonce_digest at db c =
    Commits-bind (consume_request_nonce (poll_nonce node_id nonce_digest at) db)
      (λ db'. found (select (polling_node node_id) db'.nodes) Error.integrity_error >>= λ n.
        poll_reply node_id at db')
      (λ db' e.
        Commits-found (select (polling_node node_id) db'.nodes) Error.integrity_error
          (λ n. poll_reply node_id at db')
          (λ n f.
            polled node_id at db'
              (consume_request-Consistent (poll_nonce node_id nonce_digest at) db db' e c)))
