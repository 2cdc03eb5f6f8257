-- ===== src/Traffic/Crossings/Listed.antt =====
-- The accounts that a batch brings over their limit are among those that it counts as exhausted.
use hysteria2_panel.Prelude.{
  ℕ, ◌+◌, ◌≤◌, ◌≡◌, refl, sym, subst, String, Bool, true, false, not, ◌⊎◌, ◌&&◌, ◌||◌, Option, none,
  some, List, [], ◌∷◌, ◌++◌, inl, inr, arith, ok, maybe, guard-ok, ok-injective, select, update,
  row_count, row_count-update, row_count-zero, All, All-map, leb, ◌==◌, if◌then◌else◌, if_cases,
  Bool-cases, str_eq, str_eq_refl, update-All-both, All-and,
}
use hysteria2_panel.Nodes.Row.{User}
use hysteria2_panel.Nodes.Database.{Database, Error}
use hysteria2_panel.Nodes.Kicks.{contains}
use hysteria2_panel.Users.{user_is, user_named}
use hysteria2_panel.Users.Limits.{exhausted}
use hysteria2_panel.Traffic.{max_integer, record_usage}
use hysteria2_panel.Traffic.Batches.{
  Traffic, Source, Times, account_of, is_local, counts_for, crosses, add_traffic, count_entry,
  count_entries,
}

pub contains-snoc :
    (name x : String) (xs : List String)
    → contains name (xs ++ x ∷ []) ≡ (contains name xs || str_eq x name)
unfolding contains
contains-snoc name x [] = ground arith
contains-snoc name x (y ∷ xs) = ground (arith, contains-snoc name x xs)

-- Names are compared without case, and no two accounts have the same.
abbrev pub NamesDiffer : List User → Type 0
NamesDiffer users = (name : String) → row_count (user_named name) users ≤ 1

-- The one row that passes a test is the one that a SELECT finds.
pub only_row :
    (test : User → Bool) (users : List User) (x : User)
    → row_count test users ≤ 1
    → select test users ≡ some x
    → All (λ y. test y ≡ true → y ≡ x) users
unfolding select row_count
only_row test [] x one e = tt
only_row test (y ∷ users) x one e = elim (Bool-cases (test y)) [
  | inl t ↦ (
    (λ _. ground arith),
    All-map (λ z f h. absurd (ground arith)) users
        (row_count-zero (λ (u : User). u.name) test users (ground arith)),
  )
  | inr f ↦ ((λ t. absurd (ground arith)), only_row test users x (ground arith) (ground arith))
]

module _ (id : ℕ) where
  -- The account, once it has used up its limit, is among the exhausted ones.
  unfoldable pub IsListed : List String → User → Type 0
  IsListed names u = user_is id u ≡ true → exhausted u ≡ true → contains u.name names ≡ true

  -- Adding to the row that the names are taken from
  pub added-IsListed :
      (names : List String) (tx rx now : ℕ) (x : User)
      → IsListed names x
      → IsListed (if crosses x tx rx then names ++ x.name ∷ [] else names) (add_traffic tx rx now x)
  unfolding IsListed
  added-IsListed names tx rx now x h t over =
      ground (arith, h t, contains-snoc x.name x.name names, str_eq_refl x.name)

  pub longer-IsListed :
      (names : List String) (b : Bool) (name : String) (u : User)
      → IsListed names u
      → IsListed (if b then names ++ name ∷ [] else names) u
  unfolding IsListed
  longer-IsListed names b name u h t over =
      ground (arith, h t over, contains-snoc u.name name names)

  -- The writes of one entry to the accounts
  unfoldable pub entry_users : String → ℕ → ℕ → ℕ → Bool → List User → List User
  entry_users name tx rx now counted users =
      if counted then update (user_named name) (add_traffic tx rx now) users else users

  pub entry-IsListed :
      (name : String) (tx rx now : ℕ) (counted : Bool) (x : User) (names : List String)
      (users : List User)
      → NamesDiffer users
      → select (user_named name) users ≡ some x
      → All (IsListed names) users
      → All
          (IsListed (if counted && crosses x tx rx then names ++ x.name ∷ [] else names))
          (entry_users name tx rx now counted users)
  unfolding entry_users
  entry-IsListed name tx rx now false x names users differ e h = h
  entry-IsListed name tx rx now true x names users differ e h =
      update-All-both (λ y. (user_named name y ≡ true → y ≡ x) × IsListed names y)
        (IsListed (if crosses x tx rx then names ++ x.name ∷ [] else names)) (user_named name)
        (add_traffic tx rx now) users
        (λ y t p.
          subst
            (λ z.
              IsListed (if crosses x tx rx then names ++ x.name ∷ [] else names)
                (add_traffic tx rx now z))
            (sym (p.0 t)) (added-IsListed names tx rx now x (subst (IsListed names) (p.0 t) (p.1))))
        (λ y f p. longer-IsListed names (crosses x tx rx) x.name y (p.1))
        (All-and (λ y q r. (q, r)) users (only_row (user_named name) users x (differ name) e) h)

  pub account_of-cases :
      (s : Source) (users : List User) (name : String)
      → (account_of s.kind users name ≡ none)
        ⊎ ((x : User) × (account_of s.kind users name ≡ some x)
            × (select (user_named name) users ≡ some x))
  unfolding account_of
  account_of-cases s users name = by_row (select (user_named name) users) refl
    where
      by_row :
          (o : Option User)
          → select (user_named name) users ≡ o
          → (account_of s.kind users name ≡ none)
            ⊎ ((x : User) × (account_of s.kind users name ≡ some x)
                × (select (user_named name) users ≡ some x))
      by_row none e = inl (rw e)
      by_row (some x) e = elim (Bool-cases (is_local s.kind && not (x.user_type == 0))) [
        | inl other ↦ inl (rw (e, other))
        | inr same ↦ inr (x, rw (e, same), e)
      ]

  pub count_entry-IsListed :
      (s : Source) (t : Times) (name : String) (tx rx : ℕ) (names : List String) (db : Database)
      → NamesDiffer db.users
      → All (IsListed names) db.users
      → All
          (IsListed ((count_entry s t name tx rx names db).0))
          (count_entry s t name tx rx names db).1.users
  unfolding count_entry record_usage entry_users
  count_entry-IsListed s t name tx rx names db differ h = elim (account_of-cases s db.users name) [
    | inl nobody ↦ rw nobody h
    | inr (x, account, e) ↦
        rw account
          (entry-IsListed name tx rx t.now (counts_for s.kind t x) x names db.users differ e h)
  ]

  pub count_entry-NamesDiffer :
      (s : Source) (t : Times) (name : String) (tx rx : ℕ) (names : List String) (db : Database)
      → NamesDiffer db.users
      → NamesDiffer (count_entry s t name tx rx names db).1.users
  unfolding count_entry record_usage
  count_entry-NamesDiffer s t name tx rx names db differ n =
      if_cases (λ (users : List User). row_count (user_named n) users ≤ 1)
        (maybe (account_of s.kind db.users name) false (counts_for s.kind t)) _ _
        (λ _. omega (
          arith,
          differ n,
          row_count-update (user_named n) (user_named name) (add_traffic tx rx t.now) db.users
              (λ y k. refl),
        ))
        (λ _. differ n)

  -- The accounts that the loop finds exhausted
  unfoldable pub ListedAfter : List String × Database → Type 0
  ListedAfter (names, db) = All (IsListed names) db.users

  pub count_entries-IsListed :
      (s : Source) (t : Times) (traffic : Traffic) (names names' : List String) (db db' : Database)
      → NamesDiffer db.users
      → All (IsListed names) db.users
      → count_entries s t traffic names db ≡ ok (names', db')
      → All (IsListed names') db'.users
  unfolding count_entries ListedAfter
  count_entries-IsListed s t [] names names' db db' differ h e =
      subst ListedAfter (ok-injective e) h
  count_entries-IsListed s t ((name, tx, rx) ∷ traffic) names names' db db' differ h e =
      let (_, rest) = guard-ok (leb (tx + rx) max_integer) Error.overflow _ e in
      count_entries-IsListed s t traffic _ names' _ db'
        (count_entry-NamesDiffer s t name tx rx names db differ)
        (count_entry-IsListed s t name tx rx names db differ h) rest
