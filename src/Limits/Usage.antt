-- ===== src/Limits/Usage.antt =====
-- `UserUsageRateLimiter` of hysteria2_panel.py: fixed windows of 60 seconds. A time is a number of
-- microseconds of the monotonic clock. The dictionary of the windows is the list of its items.
pub mod Budget
use hysteria2_panel.Prelude.{
  ℕ, ◌+◌, ◌-◌, ◌*◌, ◌/◌, max, String, Bool, not, List, [], ◌∷◌, ◌++◌, Option, Result, ok, err,
  maybe, select, update, delete, row_count, length, leb, ltb, if◌then◌else◌, keyed,
}

-- When a window ends, and what was spent in it
pub record Window : Type 0 where
  pub expiry : ℕ
  pub count : ℕ

abbrev pub Windows : Type 0
Windows = List (String × Window)

abbrev pub second : ℕ
second = 1000000

abbrev pub key_of : String × Window → String
key_of e = e.0

-- `windows.get(key)`, `key not in windows` and `windows[key] = w`
abbrev pub has_key : String → Windows → Bool
has_key key windows = ltb 0 (row_count (keyed key_of key) windows)

unfoldable pub set_key : String → Window → Windows → Windows
set_key key w windows =
    if has_key key windows
    then update (keyed key_of key) (λ e. (e.0, w)) windows
    else windows ++ (key, w) ∷ []

-- `{k: v for k, v in windows.items() if v[0] > now}`
abbrev pub purge : ℕ → Windows → Windows
purge now windows = delete (λ e. leb (e.1).expiry now) windows

abbrev pub fresh : ℕ → Window
fresh now = record { expiry = now + 60 * second; count = 0 }

-- The window that a request at `now` falls into
abbrev pub current : ℕ → Option (String × Window) → Window
current now found = maybe found (fresh now) (λ e. if leb (e.1).expiry now then fresh now else e.1)

abbrev pub window_at : ℕ → String → Windows → Window
window_at now key windows = current now (select (keyed key_of key) windows)

abbrev pub spent : Window → Window
spent w = record w { count = w.count + 1 }

-- `max(1, int(expiry - now) + 1)`
abbrev pub wait_of : ℕ → Window → ℕ
wait_of now w = max 1 ((w.expiry - now) / second + 1)

-- The loop over the budgets: what would be written, or how long to wait
unfoldable pub scan : ℕ → Windows → List (String × ℕ) → Windows → Result ℕ Windows
scan now windows [] pending = ok pending
scan now windows ((key, limit) ∷ limits) pending =
    let w = window_at now key windows in
    let rest = scan now windows limits (set_key key (spent w) pending) in
    if leb limit w.count then err (wait_of now w) else rest

-- `sum(key not in windows for key in pending)`
unfoldable pub new_keys : Windows → Windows → ℕ
new_keys windows pending = row_count (λ e. not (has_key (e.0) windows)) pending

-- `windows.update(pending)`
unfoldable pub merge : Windows → Windows → Windows
merge windows [] = windows
merge windows ((key, w) ∷ pending) = merge (set_key key w windows) pending

-- What `consume_many` returns, 0 where it admits, and the windows after it
unfoldable pub admit : Windows → Result ℕ Windows → ℕ × Windows
admit windows (err wait) = (wait, windows)
admit windows (ok pending) =
    if ltb 4096 (length windows + new_keys windows pending)
    then (1, windows)
    else (0, merge windows pending)

abbrev pub kept : ℕ → Windows → Windows
kept now windows = if leb 4096 (length windows) then purge now windows else windows

unfoldable pub consume_many : ℕ → List (String × ℕ) → Windows → ℕ × Windows
consume_many now limits windows = admit (kept now windows) (scan now (kept now windows) limits [])
