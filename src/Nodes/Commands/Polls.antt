-- ===== src/Nodes/Commands/Polls.antt =====
-- How much a poll sends at once.
use hysteria2_panel.Prelude.{
  ℕ, zero, suc, ◌+◌, ◌*◌, ◌≤◌, ◌≡◌, ◌⊎◌, inl, inr, refl, subst, String, List, [], ◌∷◌, ◌++◌, arith,
  ok, found, ◌>>=◌, length, length-append, ltb, if◌then◌else◌, if_cases, select, bind-ok,
  ok-injective,
}
use hysteria2_panel.Nodes.Row.{Command}
use hysteria2_panel.Nodes.Database.{Database, Error}
use hysteria2_panel.Nodes.Nonce.{consume_request_nonce}
use hysteria2_panel.Nodes.Commands.Delivery.{
  Sent, first, due, deliver, superseded, mark_superseded, mark_delivered, sent_of, response_size,
  poll_nonce, polling_node, poll_reply, poll_node_commands,
}

first-length : (n : ℕ) (xs : List Command) → length (first n xs) ≤ n
unfolding first
first-length zero xs = omega arith
first-length (suc n) [] = omega arith
first-length (suc n) (x ∷ xs) = omega (arith, first-length n xs)

due-length : (node_id : String) (now : ℕ) (db : Database) → length (due node_id now db) ≤ 32
unfolding due
due-length node_id now db = first-length 32 _

-- A response is empty, or it is at most 64 KiB.
abbrev pub Fits : ℕ → List Sent → Type 0
Fits now commands = (commands ≡ []) ⊎ (response_size commands now ≤ 64 * 1024)

-- The loop adds at most one command for each row, and keeps to the size.
abbrev Bounded : ℕ → ℕ → List Sent × Database → Type 0
Bounded now n p = (length (p.0) ≤ n) × Fits now (p.0)

deliver-Bounded :
    (node_id : String) (now : ℕ) (rows : List Command) (sent : List Sent) (db : Database) (n : ℕ)
    → length sent + length rows ≤ n
    → Fits now sent
    → Bounded now n (deliver node_id now rows sent db)
unfolding deliver
deliver-Bounded node_id now [] sent db n h fits = (omega (arith, h), fits)
deliver-Bounded node_id now (row ∷ rows) sent db n h fits =
    let candidate = sent ++ sent_of db.users row ∷ [] in
    let skipped = deliver node_id now rows sent (mark_superseded row.command_id now db) in
    let more = deliver node_id now rows candidate (mark_delivered node_id row now db) in
    let full = ltb (64 * 1024) (response_size candidate now) in
    if_cases (Bounded now n) (superseded db.users row) skipped (if full then (sent, db) else more)
      (λ _.
        deliver-Bounded node_id now rows sent (mark_superseded row.command_id now db) n
          (omega (arith, h)) fits)
      (λ _.
        if_cases (Bounded now n) full (sent, db) more (λ _. (omega (arith, h), fits))
          (λ room.
            deliver-Bounded node_id now rows candidate (mark_delivered node_id row now db) n
              (omega (arith, h, length-append sent (sent_of db.users row ∷ [])))
              (inr (ground arith))))

-- A poll sends at most 32 commands, and its response, unless it is empty, is at most 64 KiB long.
pub poll_is_bounded :
    (node_id nonce_digest : String) (at : ℕ) (db db' : Database) (sent : List Sent)
    → poll_node_commands node_id nonce_digest at db ≡ ok (sent, db')
    → (length sent ≤ 32) × ((sent ≡ []) ⊎ (response_size sent at ≤ 64 * 1024))
unfolding poll_node_commands
poll_is_bounded node_id nonce_digest at db db' sent e =
    let reply = λ (d : Database).
      found (select (polling_node node_id) d.nodes) Error.integrity_error >>= λ n.
      poll_reply node_id at d in
    let (d, _, e1) =
      bind-ok (consume_request_nonce (poll_nonce node_id nonce_digest at) db) reply e in
    let (n, _, e2) =
      bind-ok (found (select (polling_node node_id) d.nodes) Error.integrity_error)
        (λ n. poll_reply node_id at d) e1 in
    subst (Bounded at 32) (ok-injective e2) (
      deliver-Bounded node_id at (due node_id at d) [] d 32 (omega (arith, due-length node_id at d))
        (inl refl))
