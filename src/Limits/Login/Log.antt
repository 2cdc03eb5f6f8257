-- ===== src/Limits/Login/Log.antt =====
-- What the limit on logins promises, without its table: the failures of each address since its last
-- success are all remembered, and five of them within 15 minutes make the address wait.
use hysteria2_panel.Prelude.{
  ℕ, ◌≡◌, refl, sym, ap, subst, ◌∙◌, ◌≤◌, String, Bool, true, false, not, ◌&&◌, Option, none, some,
  List, [], ◌∷◌, ◌++◌, inl, inr, arith, Bool-cases, &&→both, length, leb, ltb, if◌then◌else◌,
  str_eq, str_eq→eq, str_eq_refl,
}
use hysteria2_panel.Limits.Login.{
  Attempts, attempts_of, set_attempts, pop, recent_at, store, keep_recent, wait_after, retry_after,
  make_room, record_failure, record_success, Call, Answer, judge, authenticate, authenticate_all,
}
use hysteria2_panel.Limits.Login.Lookups.{
  attempts_of-set_attempts, attempts_of-set_attempts_other, attempts_of-pop, attempts_of-pop_other,
  attempts_of-store, attempts_of-store_other, recent_at-later, recent_at-append, make_room-roomy,
}
use hysteria2_panel.Limits.Login.Bounds.{length-keep_recent_le}

-- The failures of each address since its last success
abbrev pub Log : Type 0
Log = String → List ℕ

abbrev pub log_failure : ℕ → String → Log → Log
log_failure now address log k = if str_eq address k then log k ++ now ∷ [] else log k

abbrev pub log_success : String → Log → Log
log_success address log k = if str_eq address k then [] else log k

abbrev pub judge_log : ℕ → String → Option String → Log → Answer × Log
judge_log now address (some id) log = ((some id, 0, true), log_success address log)
judge_log now address none log = (
  (none, wait_after now (recent_at now (log_failure now address log address)), true),
  log_failure now address log,
)

unfoldable pub authenticate_log : Call → Log → Answer × Log
unfolding wait_after recent_at
authenticate_log c log =
    let wait = wait_after c.now (recent_at c.now (log c.address)) in
    if ltb 0 wait
    then ((none, wait, false), log)
    else if not c.slot_is_free
    then ((none, 1, false), log)
    else judge_log c.now c.address c.verified log

unfoldable pub answers_of_log : List Call → Log → List Answer
unfolding authenticate_log
answers_of_log [] log = []
answers_of_log (c ∷ calls) log =
    (authenticate_log c log).0 ∷ answers_of_log calls (authenticate_log c log).1

-- From `start` on, each address has the same recent failures in the table as in the log.
abbrev Follows : ℕ → Log → Attempts → Type 0
Follows start log table =
    (k : String) (now : ℕ)
    → start ≤ now
    → recent_at now (attempts_of k table) ≡ recent_at now (log k)

-- The address of a call, or another one
by_address :
    (address : String) (P : String → Type 0)
    → P address
    → ((k : String) → str_eq address k ≡ false → P k)
    → (k : String) → P k
by_address address P same other k = elim (Bool-cases (str_eq address k)) [
  | inl t ↦ subst P (str_eq→eq address k t) same
  | inr f ↦ other k f
]

keep_recent-Follows :
    (start now : ℕ) (address : String) (log : Log) (table : Attempts)
    → start ≤ now
    → Follows start log table
    → Follows now log (keep_recent now address table)
keep_recent-Follows start now address log table le f k later h =
    let recent = recent_at now (attempts_of address table) in
    by_address address
      (λ x. recent_at later (attempts_of x (store address recent table)) ≡ recent_at later (log x))
      (ap (recent_at later) (attempts_of-store address recent table)
        ∙ recent_at-later now later (attempts_of address table) h
        ∙ f address later (omega arith))
      (λ x other.
        ap (recent_at later) (attempts_of-store_other address x recent table other)
        ∙ f x later (omega arith))
      k

success-Follows :
    (start : ℕ) (address : String) (log : Log) (table : Attempts)
    → Follows start log table
    → Follows start (log_success address log) (record_success address table)
success-Follows start address log table f k later h =
    by_address address
      (λ x.
        recent_at later (attempts_of x (pop address table))
        ≡ recent_at later (log_success address log x))
      (ap (recent_at later) (attempts_of-pop address table ∙ ground (arith, str_eq_refl address)))
      (λ x other.
        ap (recent_at later) (attempts_of-pop_other address x table other)
        ∙ f x later h
        ∙ ap (recent_at later) (ground arith))
      k

-- A failure after the recent attempts
added-Follows :
    (now : ℕ) (address : String) (log : Log) (recent : List ℕ) (table : Attempts)
    → ((later : ℕ) → now ≤ later → recent_at later recent ≡ recent_at later (log address))
    → Follows now log table
    → Follows now (log_failure now address log) (set_attempts address (recent ++ now ∷ []) table)
added-Follows now address log recent table same f k later h =
    by_address address
      (λ x.
        recent_at later (attempts_of x (set_attempts address (recent ++ now ∷ []) table))
        ≡ recent_at later (log_failure now address log x))
      (ap (recent_at later) (attempts_of-set_attempts address (recent ++ now ∷ []) table)
        ∙ recent_at-append later recent (now ∷ [])
        ∙ ap (λ x. x ++ recent_at later (now ∷ [])) (same later h)
        ∙ sym (recent_at-append later (log address) (now ∷ []))
        ∙ ap (recent_at later) (ground (arith, str_eq_refl address)))
      (λ x other.
        ap (recent_at later)
          (attempts_of-set_attempts_other address x (recent ++ now ∷ []) table other)
        ∙ f x later h
        ∙ ap (recent_at later) (ground arith))
      k

-- The answer of the table is that of the log, and the table still follows it.
Agrees : ℕ → Answer × Attempts → Answer × Log → Type 0
Agrees now implemented promised =
    (implemented.0 ≡ promised.0) × Follows now promised.1 implemented.1

judge-Agrees :
    (now : ℕ) (address : String) (verified : Option String) (log : Log) (table : Attempts)
    → ltb (length table) 4096 ≡ true
    → Follows now log table
    → Agrees now (judge now address verified table) (judge_log now address verified log)
unfolding Agrees record_failure
judge-Agrees now address (some id) log table room f =
    (refl, success-Follows now address log table f)
judge-Agrees now address none log table room f =
    subst
      (λ x.
        Agrees now
          (let (wait, after) =
              retry_after now address (set_attempts address (recent ++ now ∷ []) x) in
            ((none, wait, true), after))
          (judge_log now address none log))
      (sym same)
      (
        ap (λ x. (none, wait_after now x, true)) (added address now (omega arith)),
        keep_recent-Follows now now address (log_failure now address log)
            (set_attempts address (recent ++ now ∷ []) (keep_recent now address table))
            (omega arith) added,
      )
  where
    recent : List ℕ
    recent = recent_at now (attempts_of address table)

    kept : Follows now log (keep_recent now address table)
    kept = keep_recent-Follows now now address log table (omega arith) f

    same : make_room recent (keep_recent now address table) ≡ keep_recent now address table
    same =
        make_room-roomy recent (keep_recent now address table)
          (ground (arith, length-keep_recent_le now address table))

    added :
        Follows now
          (log_failure now address log)
          (set_attempts address (recent ++ now ∷ []) (keep_recent now address table))
    added =
        added-Follows now address log recent (keep_recent now address table)
          (λ later h. recent_at-later now later (attempts_of address table) h ∙ f address later h)
          kept

authenticate-Agrees :
    (start : ℕ) (c : Call) (log : Log) (table : Attempts)
    → start ≤ c.now
    → ltb (length table) 4096 ≡ true
    → Follows start log table
    → Agrees c.now (authenticate c table) (authenticate_log c log)
unfolding authenticate authenticate_log Agrees
authenticate-Agrees start c log table le room f =
    subst
      (λ x.
        Agrees c.now
          (if ltb 0 (wait_after c.now recent)
            then ((none, wait_after c.now recent, false), kept)
            else if not c.slot_is_free
            then ((none, 1, false), kept)
            else judge c.now c.address c.verified kept)
          (if ltb 0 (wait_after c.now x)
            then ((none, wait_after c.now x, false), log)
            else if not c.slot_is_free
            then ((none, 1, false), log)
            else judge_log c.now c.address c.verified log))
      (f c.address c.now le) (cases (ltb 0 (wait_after c.now recent)) c.slot_is_free)
  where
    recent : List ℕ
    recent = recent_at c.now (attempts_of c.address table)

    kept : Attempts
    kept = keep_recent c.now c.address table

    follows : Follows c.now log kept
    follows = keep_recent-Follows start c.now c.address log table le f

    cases :
        (waits free : Bool)
        → Agrees c.now
            (if waits
              then ((none, wait_after c.now recent, false), kept)
              else if not free
              then ((none, 1, false), kept)
              else judge c.now c.address c.verified kept)
            (if waits
              then ((none, wait_after c.now recent, false), log)
              else if not free
              then ((none, 1, false), log)
              else judge_log c.now c.address c.verified log)
    cases true free = (refl, follows)
    cases false false = (refl, follows)
    cases false true =
        judge-Agrees c.now c.address c.verified log kept
          (ground (arith, length-keep_recent_le c.now c.address table)) follows

-- The clock does not go back.
unfoldable pub in_order : ℕ → List Call → Bool
in_order start [] = true
in_order start (c ∷ calls) = leb start c.now && in_order c.now calls

-- No call finds the table full.
unfoldable pub never_full : List Call → Attempts → Bool
unfolding authenticate
never_full [] table = true
never_full (c ∷ calls) table = ltb (length table) 4096 && never_full calls (authenticate c table).1

answers-Follow :
    (start : ℕ) (calls : List Call) (log : Log) (table : Attempts)
    → in_order start calls ≡ true
    → never_full calls table ≡ true
    → Follows start log table
    → (authenticate_all calls table).0 ≡ answers_of_log calls log
unfolding in_order never_full authenticate_all answers_of_log Agrees
answers-Follow start [] log table o n f = refl
answers-Follow start (c ∷ calls) log table o n f =
    let (le, ordered) = &&→both (leb start c.now) (in_order c.now calls) o in
    let (room, rest) =
      &&→both (ltb (length table) 4096) (never_full calls (authenticate c table).1) n in
    let agrees = authenticate-Agrees start c log table (ground arith) room f in
    ap (λ x. x ∷ (authenticate_all calls (authenticate c table).1).0) agrees.0
    ∙ ap (λ x. (authenticate_log c log).0 ∷ x)
        (answers-Follow c.now calls (authenticate_log c log).1 (authenticate c table).1 ordered rest
          agrees.1)

-- From an empty table, the answers to any sequence of calls of `authenticate` are those of the log
-- that forgets nothing: the verifier is called exactly for an address with less than five failures in
-- the last 15 minutes since its last success, if a slot is free, and each wait is that of the log. The
-- clock does not go back, and no call finds 4096 addresses in the table.
pub login_follows_log :
    (calls : List Call)
    → in_order 0 calls ≡ true
    → never_full calls [] ≡ true
    → (authenticate_all calls []).0 ≡ answers_of_log calls (λ _. [])
unfolding attempts_of
login_follows_log calls o n = answers-Follow 0 calls (λ _. []) [] o n (λ k now h. refl)
