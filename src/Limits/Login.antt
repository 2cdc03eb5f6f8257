-- ===== src/Limits/Login.antt =====
-- `LoginRateLimiter` of hysteria2_panel.py, as the panel constructs it. A time is a number of
-- microseconds of the clock, one reading for each call. The dictionary of the attempts is the list of
-- its items. An address is its key: `_address_key` is left out. The calls of one address follow each
-- other under its lock; whether a slot for a verification is free is an argument.
pub mod Bounds
pub mod Log
pub mod Lookups
pub mod Waits
mod Tests
use hysteria2_panel.Prelude.{
  ℕ, ◌+◌, ◌-◌, ◌*◌, ◌/◌, ◌%◌, max, String, Bool, true, false, not, Option, none, some, List, [],
  ◌∷◌, ◌++◌, select_all, length, leb, ltb, ◌==◌, if◌then◌else◌, str_eq,
}
use hysteria2_panel.Limits.Usage.{second}

abbrev pub max_attempts : ℕ
max_attempts = 5

abbrev pub window : ℕ
window = 900 * second

abbrev pub max_addresses : ℕ
max_addresses = 4096

abbrev pub Attempts : Type 0
Attempts = List (String × List ℕ)

-- `self._attempts.get(address, [])`
unfoldable pub attempts_of : String → Attempts → List ℕ
attempts_of address [] = []
attempts_of address ((k, times) ∷ rest) =
    if str_eq k address then times else attempts_of address rest

-- `self._attempts[address] = times`
unfoldable pub set_attempts : String → List ℕ → Attempts → Attempts
set_attempts address times [] = (address, times) ∷ []
set_attempts address times ((k, old) ∷ rest) =
    if str_eq k address then (k, times) ∷ rest else (k, old) ∷ set_attempts address times rest

-- `self._attempts.pop(address, None)`
unfoldable pub pop : String → Attempts → Attempts
pop address [] = []
pop address ((k, times) ∷ rest) =
    let others = pop address rest in if str_eq k address then others else (k, times) ∷ others

-- The attempts that are less than a window old
unfoldable pub recent_at : ℕ → List ℕ → List ℕ
unfolding select_all
recent_at now times = select_all (λ t. ltb now (t + window)) times

abbrev pub store : String → List ℕ → Attempts → Attempts
store address [] table = pop address table
store address (t ∷ times) table = set_attempts address (t ∷ times) table

-- `_recent`
abbrev pub keep_recent : ℕ → String → Attempts → Attempts
keep_recent now address table = store address (recent_at now (attempts_of address table)) table

abbrev pub is_allowed : ℕ → String → Attempts → Bool
is_allowed now address table = ltb (length (recent_at now (attempts_of address table))) max_attempts

-- The whole seconds until the first attempt leaves the window, at least one
abbrev pub first_wait : ℕ → List ℕ → ℕ
first_wait now [] = 0
first_wait now (t ∷ times) =
    let remaining = t + window - now in
    max 1 (remaining / second + (if remaining % second == 0 then 0 else 1))

-- How long to wait after the recent attempts
unfoldable pub wait_after : ℕ → List ℕ → ℕ
wait_after now recent = if ltb (length recent) max_attempts then 0 else first_wait now recent

-- `retry_after`, and the table after it
abbrev pub retry_after : ℕ → String → Attempts → ℕ × Attempts
retry_after now address table =
    (wait_after now (recent_at now (attempts_of address table)), keep_recent now address table)

abbrev pub last_at : List ℕ → ℕ
last_at [] = 0
last_at (t ∷ []) = t
last_at (t ∷ u ∷ times) = last_at (u ∷ times)

-- `min(self._attempts, key=...)`: the first address whose last attempt is the oldest
unfoldable pub oldest_of : String → ℕ → Attempts → String
oldest_of address at [] = address
oldest_of address at ((k, times) ∷ rest) =
    let keep = oldest_of address at rest in
    let change = oldest_of k (last_at times) rest in if ltb (last_at times) at then change else keep

abbrev pub evict : Attempts → Attempts
evict [] = []
evict ((k, times) ∷ rest) = pop (oldest_of k (last_at times) rest) ((k, times) ∷ rest)

-- A new address makes room for itself in a full table.
abbrev pub make_room : List ℕ → Attempts → Attempts
make_room [] table = if leb max_addresses (length table) then evict table else table
make_room (t ∷ recent) table = table

unfoldable pub record_failure : ℕ → String → Attempts → ℕ × Attempts
unfolding recent_at attempts_of set_attempts pop oldest_of wait_after
record_failure now address table =
    let recent = recent_at now (attempts_of address table) in
    retry_after now address
      (set_attempts address (recent ++ now ∷ []) (make_room recent (keep_recent now address table)))

abbrev pub record_success : String → Attempts → Attempts
record_success address table = pop address table

-- A call of `authenticate`, with what the verifier would return
pub record Call : Type 0 where
  pub now : ℕ
  pub address : String
  pub slot_is_free : Bool
  pub verified : Option String

-- The result, how long to wait, and whether the verifier was called
abbrev pub Answer : Type 0
Answer = Option String × ℕ × Bool

-- After the verifier
abbrev pub judge : ℕ → String → Option String → Attempts → Answer × Attempts
judge now address (some id) table = ((some id, 0, true), record_success address table)
judge now address none table =
    let (wait, after) = record_failure now address table in ((none, wait, true), after)

unfoldable pub authenticate : Call → Attempts → Answer × Attempts
unfolding record_failure
authenticate c table =
    let (wait, kept) = retry_after c.now c.address table in
    if ltb 0 wait
    then ((none, wait, false), kept)
    else if not c.slot_is_free
    then ((none, 1, false), kept)
    else judge c.now c.address c.verified kept

-- The answers to a sequence of calls, and the table after it
unfoldable pub authenticate_all : List Call → Attempts → List Answer × Attempts
unfolding authenticate
authenticate_all [] table = ([], table)
authenticate_all (c ∷ calls) table =
    let (answer, next) = authenticate c table in
    let (answers, last) = authenticate_all calls next in (answer ∷ answers, last)
