-- ===== src/Limits/Usage/Budget.antt =====
-- What the usage limiter keeps: its size, the budgets, and that a refused request spends nothing.
use hysteria2_panel.Prelude.{
  ℕ, suc, ◌+◌, ◌≤◌, ◌≡◌, ◌≢◌, refl, sym, ap, ◌∙◌, subst, String, Bool, true, List, [], ◌∷◌, ◌++◌,
  arith, none, Result, ok, err, inl, inr, select, update, delete, row_count, row_count-update,
  row_count-snoc, row_count-delete-le, length, length-append, leb, ltb, if◌then◌else◌, if_cases,
  Bool-cases, str_eq→eq, keyed, Unique, All, All-snoc, update-All, delete-All,
}
use hysteria2_panel.Limits.Usage.{
  Window, Windows, key_of, has_key, set_key, purge, window_at, spent, wait_of, scan, new_keys,
  merge, admit, kept, consume_many,
}

length-update :
    (test : String × Window → Bool) (change : String × Window → String × Window) (xs : Windows)
    → length (update test change xs) ≡ length xs
unfolding update
length-update test change [] = refl
length-update test change (x ∷ xs) = ap suc (length-update test change xs)

length-delete-le :
    (test : String × Window → Bool) (xs : Windows) → length (delete test xs) ≤ length xs
unfolding delete
length-delete-le test [] = omega arith
length-delete-le test (x ∷ xs) = ground (arith, length-delete-le test xs)

length-set_key :
    (key : String) (w : Window) (xs : Windows)
    → length (set_key key w xs) ≡ length xs + (if has_key key xs then 0 else 1)
unfolding set_key
length-set_key key w xs =
    ground
      (arith, length-update (keyed key_of key) (λ e. (e.0, w)) xs, length-append xs ((key, w) ∷ []))

-- A key that was there is there after another one was set.
has_key-set_key :
    (key k : String) (w : Window) (xs : Windows)
    → has_key k xs ≡ true
    → has_key k (set_key key w xs) ≡ true
unfolding set_key
has_key-set_key key k w xs h = ground (
  arith,
  row_count-update (keyed key_of k) (keyed key_of key) (λ e. (e.0, w)) xs (λ e t. refl),
  row_count-snoc (keyed key_of k) (key, w) xs,
)

new_keys-set_key :
    (key : String) (w : Window) (xs pending : Windows)
    → new_keys (set_key key w xs) pending ≤ new_keys xs pending
unfolding new_keys row_count
new_keys-set_key key w xs [] = omega arith
new_keys-set_key key w xs (p ∷ pending) =
    ground (arith, new_keys-set_key key w xs pending, has_key-set_key key (p.0) w xs)

length-merge : (xs pending : Windows) → length (merge xs pending) ≤ length xs + new_keys xs pending
unfolding merge new_keys row_count
length-merge xs [] = omega arith
length-merge xs ((key, w) ∷ pending) = ground (
  arith,
  length-merge (set_key key w xs) pending,
  length-set_key key w xs,
  new_keys-set_key key w xs pending,
)

length-kept : (now : ℕ) (xs : Windows) → length (kept now xs) ≤ length xs
length-kept now xs =
    if_cases (λ ys. length ys ≤ length xs) (leb 4096 (length xs)) (purge now xs) xs
      (λ _. length-delete-le (λ e. leb (e.1).expiry now) xs) (λ _. omega arith)

admit-length :
    (xs : Windows) (r : Result ℕ Windows) → length xs ≤ 4096 → length ((admit xs r).1) ≤ 4096
unfolding admit
admit-length xs (err wait) h = h
admit-length xs (ok pending) h =
    if_cases (λ (p : ℕ × Windows). length (p.1) ≤ 4096) (ltb 4096 (length xs + new_keys xs pending))
      (1, xs) (0, merge xs pending) (λ _. h) (λ room. ground (arith, length-merge xs pending))

-- However many requests come, the limiter holds at most 4096 windows.
pub windows_stay_bounded :
    (now : ℕ) (limits : List (String × ℕ)) (windows : Windows)
    → length windows ≤ 4096
    → length ((consume_many now limits windows).1) ≤ 4096
unfolding consume_many
windows_stay_bounded now limits windows small =
    admit-length (kept now windows) (scan now (kept now windows) limits [])
      (omega (arith, length-kept now windows))

select-none :
    (test : String × Window → Bool) (xs : Windows) → row_count test xs ≡ 0 → select test xs ≡ none
unfolding row_count select
select-none test [] h = refl
select-none test (x ∷ xs) h = ground (arith, select-none test xs)

-- A purge leaves every key the window that a request would find then or later.
window_at-purge :
    (now later : ℕ) (key : String) (xs : Windows)
    → now ≤ later
    → Unique key_of xs
    → window_at later key (purge now xs) ≡ window_at later key xs
unfolding delete select
window_at-purge now later key [] h u = refl
window_at-purge now later key (x ∷ xs) h (fresh_key, u) = elim (Bool-cases (keyed key_of key x)) [
  | inr other ↦ ground (arith, window_at-purge now later key xs h u)
  | inl here ↦
      let gone : row_count (keyed key_of key) xs ≡ 0 =
        subst (λ k. row_count (keyed key_of k) xs ≡ 0) (str_eq→eq (x.0) key here) fresh_key in
      ground (
        arith,
        select-none (keyed key_of key) (purge now xs),
        row_count-delete-le (keyed key_of key) (λ e. leb (e.1).expiry now) xs,
      )
]

window_at-kept :
    (now later : ℕ) (key : String) (xs : Windows)
    → now ≤ later
    → Unique key_of xs
    → window_at later key (kept now xs) ≡ window_at later key xs
window_at-kept now later key xs h u =
    if_cases (λ ys. window_at later key ys ≡ window_at later key xs) (leb 4096 (length xs))
      (purge now xs) xs (λ _. window_at-purge now later key xs h u) (λ _. refl)

admit-refused : (xs : Windows) (r : Result ℕ Windows) → (admit xs r).0 ≢ 0 → (admit xs r).1 ≡ xs
unfolding admit
admit-refused xs (err wait) h = refl
admit-refused xs (ok pending) h =
    if_cases (λ (p : ℕ × Windows). p.0 ≢ 0 → p.1 ≡ xs) (ltb 4096 (length xs + new_keys xs pending))
      (1, xs) (0, merge xs pending) (λ _ _. refl) (λ _ never. absurd (never refl)) h

-- A refused request spends nothing, and opens no window: for every key, a request at the same time or
-- at any later time finds the window, with its end and its count, that it would have found without
-- the refused one. Keys are unique, as those of a dictionary are.
pub refusal_spends_nothing :
    (now later : ℕ) (limits : List (String × ℕ)) (windows : Windows) (key : String)
    → now ≤ later
    → Unique key_of windows
    → (consume_many now limits windows).0 ≢ 0
    → window_at later key ((consume_many now limits windows).1) ≡ window_at later key windows
unfolding consume_many
refusal_spends_nothing now later limits windows key h u refused =
    ap (λ xs. window_at later key xs)
      (admit-refused (kept now windows) (scan now (kept now windows) limits []) refused)
    ∙ window_at-kept now later key windows h u

module _ (limit_of : String → ℕ) where
  abbrev pub Within : Windows → Type 0
  Within windows = All (λ e. (e.1).count ≤ limit_of (e.0)) windows

  Within-set_key :
      (key : String) (w : Window) (xs : Windows)
      → w.count ≤ limit_of key
      → Within xs
      → Within (set_key key w xs)
  unfolding set_key
  Within-set_key key w xs h within =
      if_cases Within (has_key key xs) (update (keyed key_of key) (λ e. (e.0, w)) xs)
        (xs ++ (key, w) ∷ [])
        (λ _.
          update-All (λ e. (e.1).count ≤ limit_of (e.0)) (keyed key_of key) (λ e. (e.0, w)) xs
            (λ e t _. subst (λ k. w.count ≤ limit_of k) (sym (str_eq→eq (e.0) key t)) h) within)
        (λ _. All-snoc (λ e. (e.1).count ≤ limit_of (e.0)) xs (key, w) within h)

  Within-merge : (xs pending : Windows) → Within xs → Within pending → Within (merge xs pending)
  unfolding merge
  Within-merge xs [] h k = h
  Within-merge xs ((key, w) ∷ pending) h (q, k) =
      Within-merge (set_key key w xs) pending (Within-set_key key w xs q h) k

  -- What the loop would write is within the limits that it was given.
  abbrev Pending : Result ℕ Windows → Type 0
  Pending (ok pending) = Within pending
  Pending (err wait) = Unit

  scan-Within :
      (now : ℕ) (xs : Windows) (limits : List (String × ℕ)) (pending : Windows)
      → All (λ p. p.1 ≤ limit_of (p.0)) limits
      → Within pending
      → Pending (scan now xs limits pending)
  unfolding scan
  scan-Within now xs [] pending h k = k
  scan-Within now xs ((key, limit) ∷ limits) pending (q, h) k =
      let w = window_at now key xs in
      if_cases Pending (leb limit w.count) (err (wait_of now w))
        (scan now xs limits (set_key key (spent w) pending)) (λ _. tt)
        (λ room.
          scan-Within now xs limits (set_key key (spent w) pending) h
            (Within-set_key key (spent w) pending (ground (arith, q)) k))

  admit-Within :
      (xs : Windows) (r : Result ℕ Windows) → Within xs → Pending r → Within ((admit xs r).1)
  unfolding admit
  admit-Within xs (err wait) h k = h
  admit-Within xs (ok pending) h k =
      if_cases (λ (p : ℕ × Windows). Within (p.1)) (ltb 4096 (length xs + new_keys xs pending))
        (1, xs) (0, merge xs pending) (λ _. h) (λ _. Within-merge xs pending h k)

  -- No window counts more requests than the budget of its key allows, where no request names a larger
  -- one.
  pub budgets_are_kept :
      (now : ℕ) (limits : List (String × ℕ)) (windows : Windows)
      → All (λ p. p.1 ≤ limit_of (p.0)) limits
      → Within windows
      → Within ((consume_many now limits windows).1)
  unfolding consume_many
  budgets_are_kept now limits windows named within =
      admit-Within (kept now windows) (scan now (kept now windows) limits [])
        (if_cases Within (leb 4096 (length windows)) (purge now windows) windows
          (λ _.
            delete-All (λ e. (e.1).count ≤ limit_of (e.0)) (λ e. leb (e.1).expiry now) windows
              within)
          (λ _. within))
        (scan-Within now (kept now windows) limits [] named tt)
