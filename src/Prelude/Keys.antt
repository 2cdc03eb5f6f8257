-- ===== src/Prelude/Keys.antt =====
-- Tables with a primary key, and what an UPDATE of the row of one key keeps.
use Prim.Native.Nat.{◌≤◌, ◌<◌}
use Prim.Native.String.{String}
use mathlib.Core.Path.{◌≡◌, refl, sym, ap, subst, ◌∙◌}
use mathlib.Core.Bool.{Bool, true, false}
use mathlib.Core.Logic.{inl, inr}
use mathlib.Core.Option.{some}
use mathlib.Core.List.{List, [], ◌∷◌, ◌++◌}
use native.Mathlib.Omega.{arith}
use hysteria2_panel.Prelude.Tests.{
  if◌then◌else◌, Bool-cases, if_cases, str_eq, str_eq→eq, str_eq_refl,
}
use hysteria2_panel.Prelude.Lists.{All, All-map, All-and}
use hysteria2_panel.Prelude.Table.{
  select, select_all, row_count, update, delete, row_count-snoc, row_count-update,
  row_count-delete-le,
}

pub str_eq_sym : (s t : String) → str_eq s t ≡ false → str_eq t s ≡ false
str_eq_sym s t h = ground (arith, str_eq→eq t s, str_eq_refl s)

module _ {ℓ} {A : Type ℓ} (key : A → String) where
  -- `WHERE key = k`
  abbrev pub keyed : String → A → Bool
  keyed k x = str_eq (key x) k

  abbrev pub Unique : List A → Type 0
  Unique [] = Unit
  Unique (x ∷ xs) = (row_count (keyed (key x)) xs ≡ 0) × Unique xs

  pub row_count_of_select :
      (test : A → Bool) (xs : List A) (x : A) → select test xs ≡ some x → 0 < row_count test xs
  unfolding select row_count
  row_count_of_select test [] x h = absurd (cc)
  row_count_of_select test (y ∷ ys) x h = ground (arith, row_count_of_select test ys x)

  -- The row that an UPDATE of one key changes is the one that a SELECT of that key finds.
  pub update-All-keyed {κ} :
      (P : A → Type κ) (k : String) (test : A → Bool) (change : A → A) (xs : List A)
      → Unique xs
      → ((x : A) → test x ≡ true → keyed k x ≡ true)
      → ((x : A) → test x ≡ true → select (keyed k) xs ≡ some x → P x → P (change x))
      → All P xs
      → All P (update test change xs)
  unfolding update select
  update-All-keyed P k test change [] u narrow keep h = tt
  update-All-keyed P k test change (x ∷ xs) u narrow keep h = (
    if_cases P (test x) (change x) x (λ t. keep x t (ground (arith, narrow x t)) h.0) (λ _. h.0),
    update-All-keyed P k test change xs u.1 narrow
        (λ y t e p. keep y t (ground (arith, e, other y e)) p) h.1,
  )
    where
      other : (y : A) → select (keyed k) xs ≡ some y → str_eq (key x) k ≡ false
      other y e = elim (Bool-cases (str_eq (key x) k)) [
        | inr no_match ↦ no_match
        | inl same ↦
            absurd
              (ground (arith, str_eq→eq (key x) k same, u.0, row_count_of_select (keyed k) xs y e))
      ]

  pub update-Unique :
      (test : A → Bool) (change : A → A) (xs : List A)
      → ((x : A) → key (change x) ≡ key x)
      → Unique xs
      → Unique (update test change xs)
  unfolding update
  update-Unique test change [] keeps u = tt
  update-Unique test change (x ∷ xs) keeps u = (
    subst (λ k. row_count (keyed k) (update test change xs) ≡ 0) (sym same)
        (row_count-update (keyed (key x)) test change xs
            (λ y _. ap (λ k. str_eq k (key x)) (keeps y))
          ∙ u.0),
    update-Unique test change xs keeps u.1,
  )
    where
      same : key (if test x then change x else x) ≡ key x
      same = if_cases (λ y. key y ≡ key x) (test x) (change x) x (λ _. keeps x) (λ _. refl)

  pub delete-Unique : (test : A → Bool) (xs : List A) → Unique xs → Unique (delete test xs)
  unfolding delete
  delete-Unique test [] u = tt
  delete-Unique test (x ∷ xs) u =
      if_cases Unique (test x) (delete test xs) (x ∷ delete test xs)
        (λ _. delete-Unique test xs u.1)
        (λ _. (
          omega (arith, u.0, row_count-delete-le (keyed (key x)) test xs),
          delete-Unique test xs u.1,
        ))

  pub snoc-Unique :
      (x : A) (xs : List A) → row_count (keyed (key x)) xs ≡ 0 → Unique xs → Unique (xs ++ x ∷ [])
  unfolding row_count
  snoc-Unique x [] fresh u = (refl, tt)
  snoc-Unique x (y ∷ ys) fresh u = (
    ground (arith, row_count-snoc (keyed (key y)) x ys, str_eq_sym (key y) (key x), u.0),
    snoc-Unique x ys (ground arith) u.1,
  )

  pub row_count-zero :
      (test : A → Bool) (xs : List A) → row_count test xs ≡ 0 → All (λ x. test x ≡ false) xs
  unfolding row_count
  row_count-zero test [] h = tt
  row_count-zero test (x ∷ xs) h = (ground arith, row_count-zero test xs (ground arith))

  -- Under a primary key, the rows of one key are one row.
  pub Unique-one :
      (xs : List A) → Unique xs → All (λ r. All (λ y. keyed (key r) y ≡ true → y ≡ r) xs) xs
  Unique-one [] u = tt
  Unique-one (x ∷ xs) (fresh, u) = (
    (λ _. refl, All-map (λ y f t. absurd (ground arith)) xs others),
    All-and (λ r. key_apart r) xs others (Unique-one xs u),
  )
    where
      others : All (λ y. keyed (key x) y ≡ false) xs
      others = row_count-zero (keyed (key x)) xs fresh

      key_apart :
          (r : A)
          → keyed (key x) r ≡ false
          → All (λ y. keyed (key r) y ≡ true → y ≡ r) xs
          → All (λ y. keyed (key r) y ≡ true → y ≡ r) (x ∷ xs)
      key_apart r f h = (λ t. absurd (ground (arith, str_eq_sym (key r) (key x) f)), h)

  pub row_count-Unique : (k : String) (xs : List A) → Unique xs → row_count (keyed k) xs ≤ 1
  unfolding row_count
  row_count-Unique k [] u = omega arith
  row_count-Unique k (x ∷ xs) (fresh, u) = elim (Bool-cases (keyed k x)) [
    | inr other ↦ ground (arith, row_count-Unique k xs u)
    | inl here ↦
        let none_left : row_count (keyed k) xs ≡ 0 =
          subst (λ i. row_count (keyed i) xs ≡ 0) (str_eq→eq (key x) k here) fresh in
        ground arith
  ]

module _ {ℓ} {A : Type ℓ} where
  -- An UPDATE that neither adds to the rows of `kept` nor takes from them
  pub row_count-update-All :
      (kept test : A → Bool) (change : A → A) (xs : List A)
      → All (λ x. test x ≡ true → kept (change x) ≡ kept x) xs
      → row_count kept (update test change xs) ≡ row_count kept xs
  unfolding row_count update
  row_count-update-All kept test change [] same = refl
  row_count-update-All kept test change (x ∷ xs) (same, rest) =
      ground (arith, same, row_count-update-All kept test change xs rest)

-- What a SELECT of some rows of a table with a primary key finds
module _ {ℓ} {A : Type ℓ} (key : A → String) where
  pub select-update_other :
      (k other : String) (change : A → A) (xs : List A)
      → ((x : A) → key (change x) ≡ key x)
      → str_eq k other ≡ false
      → select (keyed key other) (update (keyed key k) change xs) ≡ select (keyed key other) xs
  unfolding select update
  select-update_other k other change [] same f = refl
  select-update_other k other change (x ∷ xs) same f = ground (
    arith,
    ap (λ i. str_eq i other) (same x),
    ap (λ i. str_eq i other),
    str_eq→eq (key x) k,
    select-update_other k other change xs same f,
  )

  pub Unique-selected :
      (xs : List A) → Unique key xs → All (λ x. select (keyed key (key x)) xs ≡ some x) xs
  unfolding select
  Unique-selected [] u = tt
  Unique-selected (x ∷ xs) (fresh, u) = (
    ground (arith, str_eq_refl (key x)),
    All-and
        (λ y (f : keyed key (key x) y ≡ false) (e : select (keyed key (key y)) xs ≡ some y).
          ground (arith, e, str_eq_sym (key y) (key x) f))
        xs (row_count-zero key (keyed key (key x)) xs fresh) (Unique-selected xs u),
  )

  pub row_count-select_all-le :
      (test p : A → Bool) (xs : List A) → row_count p (select_all test xs) ≤ row_count p xs
  unfolding row_count select_all
  row_count-select_all-le test p [] = omega arith
  row_count-select_all-le test p (x ∷ xs) = ground (arith, row_count-select_all-le test p xs)

  pub select_all-Unique :
      (test : A → Bool) (xs : List A) → Unique key xs → Unique key (select_all test xs)
  unfolding select_all
  select_all-Unique test [] u = tt
  select_all-Unique test (x ∷ xs) u =
      if_cases (Unique key) (test x) (x ∷ select_all test xs) (select_all test xs)
        (λ _. (
          omega (arith, u.0, row_count-select_all-le test (keyed key (key x)) xs),
          select_all-Unique test xs u.1,
        ))
        (λ _. select_all-Unique test xs u.1)
