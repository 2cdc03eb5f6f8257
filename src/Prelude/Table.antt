-- ===== src/Prelude/Table.antt =====
-- A table as the list of its rows, and the SQL statements that the program runs on one.
use Prim.Native.Nat.{ℕ, suc, ◌+◌, ◌≤◌}
use mathlib.Core.Path.{◌≡◌, refl, ap, subst}
use mathlib.Core.Bool.{Bool, true, false, ◌&&◌}
use mathlib.Core.Logic.{inl, inr}
use mathlib.Core.Option.{Option, none, some}
use mathlib.Core.List.{List, [], ◌∷◌, ◌++◌}
use native.Mathlib.Omega.{arith}
use hysteria2_panel.Prelude.Tests.{if◌then◌else◌, Bool-cases, if_cases}
use hysteria2_panel.Prelude.Lists.{All}

module _ {ℓ} {A : Type ℓ} where
  -- `SELECT ... WHERE test`, then `fetchone()`
  unfoldable pub select : (A → Bool) → List A → Option A
  select test [] = none
  select test (x ∷ xs) = if test x then some x else select test xs

  -- `SELECT ... WHERE test`, then `fetchall()`
  unfoldable pub select_all : (A → Bool) → List A → List A
  select_all test [] = []
  select_all test (x ∷ xs) = let rest = select_all test xs in if test x then x ∷ rest else rest

  -- `SELECT COUNT(*) ... WHERE test`; also the `rowcount` of an UPDATE
  unfoldable pub row_count : (A → Bool) → List A → ℕ
  row_count test [] = 0
  row_count test (x ∷ xs) = let rest = row_count test xs in if test x then suc rest else rest

  -- `SELECT COALESCE(SUM(column), 0) ... WHERE test`
  unfoldable pub sum_where : (A → Bool) → (A → ℕ) → List A → ℕ
  sum_where test column [] = 0
  sum_where test column (x ∷ xs) = (if test x then column x else 0) + sum_where test column xs

  -- `UPDATE ... SET change WHERE test`
  unfoldable pub update : (A → Bool) → (A → A) → List A → List A
  update test change [] = []
  update test change (x ∷ xs) = (if test x then change x else x) ∷ update test change xs

  -- `DELETE FROM ... WHERE test`
  unfoldable pub delete : (A → Bool) → List A → List A
  delete test [] = []
  delete test (x ∷ xs) = let rest = delete test xs in if test x then rest else x ∷ rest

module _ {ℓ} {A : Type ℓ} where
  pub select_holds :
      (test : A → Bool) (xs : List A) (x : A) → select test xs ≡ some x → test x ≡ true
  unfolding select
  select_holds test [] x h = cc
  select_holds test (y ∷ ys) x h = ground (arith, select_holds test ys x)

  -- A SELECT after an UPDATE of the row that it finds
  pub select-update_narrow :
      (p test : A → Bool) (change : A → A) (xs : List A) (x : A)
      → ((y : A) → test y ≡ true → p y ≡ true)
      → select p xs ≡ some x
      → test x ≡ true
      → p (change x) ≡ true
      → select p (update test change xs) ≡ some (change x)
  unfolding select update
  select-update_narrow p test change [] x narrow e t h = absurd (cc)
  select-update_narrow p test change (y ∷ ys) x narrow e t h = ground (
    arith,
    narrow y,
    select-update_narrow p test change ys x narrow,
    ap (λ z. some (change z)),
    ap (λ z. p (change z)),
    ap test,
  )

  pub select-update :
      (test : A → Bool) (change : A → A) (xs : List A) (x : A)
      → select test xs ≡ some x
      → test (change x) ≡ true
      → select test (update test change xs) ≡ some (change x)
  select-update test change xs x e h =
      select-update_narrow test test change xs x (λ y t. t) e (select_holds test xs x e) h

  pub update-All {κ} :
      (P : A → Type κ) (test : A → Bool) (change : A → A) (xs : List A)
      → ((x : A) → test x ≡ true → P x → P (change x))
      → All P xs
      → All P (update test change xs)
  unfolding update
  update-All P test change [] keep h = tt
  update-All P test change (x ∷ xs) keep (p, h) = (head, update-All P test change xs keep h)
    where
      head : P (if test x then change x else x)
      head = elim (Bool-cases (test x)) [ inl e ↦ rw e (keep x e p) | inr e ↦ rw e p ]

  pub delete-All {κ} :
      (P : A → Type κ) (test : A → Bool) (xs : List A) → All P xs → All P (delete test xs)
  unfolding delete
  delete-All P test [] h = tt
  delete-All P test (x ∷ xs) (p, h) = elim (Bool-cases (test x)) [
    | inl e ↦ rw e (delete-All P test xs h)
    | inr e ↦ rw e (p, delete-All P test xs h)
  ]

  pub All-select {κ} :
      (P : A → Type κ) (test : A → Bool) (xs : List A) (x : A)
      → All P xs
      → select test xs ≡ some x
      → P x
  unfolding select
  All-select P test [] x h e = absurd (cc)
  All-select P test (y ∷ ys) x (p, h) e = elim (Bool-cases (test y)) [
    | inl t ↦ subst P (ground arith) p
    | inr f ↦ All-select P test ys x h (ground arith)
  ]

  -- What is deleted by a test that only rows outside `kept` pass leaves the count of `kept` alone.
  pub row_count-delete :
      (kept test : A → Bool) (xs : List A)
      → ((x : A) → kept x ≡ true → test x ≡ false)
      → row_count kept (delete test xs) ≡ row_count kept xs
  unfolding row_count delete
  row_count-delete kept test [] apart = refl
  row_count-delete kept test (x ∷ xs) apart =
      ground (arith, apart x, row_count-delete kept test xs apart)

  -- An update that no row of `kept` leaves, and none enters, does not change how many there are.
  pub row_count-update :
      (kept test : A → Bool) (change : A → A) (xs : List A)
      → ((x : A) → test x ≡ true → kept (change x) ≡ kept x)
      → row_count kept (update test change xs) ≡ row_count kept xs
  unfolding row_count update
  row_count-update kept test change [] same = refl
  row_count-update kept test change (x ∷ xs) same =
      ground (arith, same x, row_count-update kept test change xs same)

  -- An update by which no row enters `kept`
  pub row_count-update-le :
      (kept test : A → Bool) (change : A → A) (xs : List A)
      → ((x : A) → test x ≡ true → kept (change x) ≡ true → kept x ≡ true)
      → row_count kept (update test change xs) ≤ row_count kept xs
  unfolding row_count update
  row_count-update-le kept test change [] same = omega arith
  row_count-update-le kept test change (x ∷ xs) same =
      ground (arith, same x, row_count-update-le kept test change xs same)

  pub row_count-snoc :
      (test : A → Bool) (x : A) (xs : List A)
      → row_count test (xs ++ x ∷ []) ≡ row_count test xs + (if test x then 1 else 0)
  unfolding row_count
  row_count-snoc test x [] = ground arith
  row_count-snoc test x (y ∷ xs) = ground (arith, row_count-snoc test x xs)

  pub row_count-delete-le :
      (test old : A → Bool) (xs : List A) → row_count test (delete old xs) ≤ row_count test xs
  unfolding row_count delete
  row_count-delete-le test old [] = omega arith
  row_count-delete-le test old (x ∷ xs) = ground (arith, row_count-delete-le test old xs)

  pub row_count-and-le :
      (test other : A → Bool) (xs : List A)
      → row_count (λ x. test x && other x) xs ≤ row_count test xs
  unfolding row_count
  row_count-and-le test other [] = omega arith
  row_count-and-le test other (x ∷ xs) = ground (arith, row_count-and-le test other xs)

  -- The rows that an UPDATE changes come to satisfy `Q`, and so do those that it leaves.
  pub update-All-both {κ ι} :
      (P : A → Type κ) (Q : A → Type ι) (test : A → Bool) (change : A → A) (xs : List A)
      → ((x : A) → test x ≡ true → P x → Q (change x))
      → ((x : A) → test x ≡ false → P x → Q x)
      → All P xs
      → All Q (update test change xs)
  unfolding update
  update-All-both P Q test change [] f g h = tt
  update-All-both P Q test change (x ∷ xs) f g h = (
    if_cases Q (test x) (change x) x (λ e. f x e h.0) (λ e. g x e h.0),
    update-All-both P Q test change xs f g h.1,
  )

  -- The rows that a SELECT of all finds
  pub select_all-All {κ ι} :
      {P : A → Type κ} {Q : A → Type ι} (test : A → Bool) (xs : List A)
      → ((x : A) → test x ≡ true → P x → Q x)
      → All P xs
      → All Q (select_all test xs)
  unfolding select_all
  select_all-All test [] f h = tt
  select_all-All {Q = Q} test (x ∷ xs) f (p, h) =
      if_cases (All Q) (test x) (x ∷ select_all test xs) (select_all test xs)
        (λ t. (f x t p, select_all-All test xs f h)) (λ _. select_all-All test xs f h)
