-- ===== src/Prelude/Sums.antt =====
-- What an INSERT and an UPDATE do to the sum of a column.
use Prim.Native.Nat.{ℕ, ◌+◌}
use mathlib.Core.Path.{◌≡◌, refl}
use mathlib.Core.Bool.{Bool, true}
use mathlib.Core.List.{List, [], ◌∷◌, ◌++◌}
use native.Mathlib.Omega.{arith}
use hysteria2_panel.Prelude.Tests.{if◌then◌else◌}
use hysteria2_panel.Prelude.Table.{sum_where, update, row_count}

module _ {A : Type 0} (test : A → Bool) (column : A → ℕ) where
  pub sum_where-snoc :
      (x : A) (xs : List A)
      → sum_where test column (xs ++ x ∷ [])
        ≡ sum_where test column xs + (if test x then column x else 0)
  unfolding sum_where
  sum_where-snoc x [] = ground arith
  sum_where-snoc x (y ∷ xs) = ground (arith, sum_where-snoc x xs)

  sum_where-update_none :
      (changed : A → Bool) (change : A → A) (xs : List A)
      → row_count changed xs ≡ 0
      → sum_where test column (update changed change xs) ≡ sum_where test column xs
  unfolding sum_where update row_count
  sum_where-update_none changed change [] h = refl
  sum_where-update_none changed change (x ∷ xs) h =
      ground (arith, sum_where-update_none changed change xs)

  -- An UPDATE of one row, which is among the rows of `test` before and after, or neither
  pub sum_where-update_one :
      (changed : A → Bool) (change : A → A) (extra : ℕ) (inside : Bool) (xs : List A)
      → ((x : A) → changed x ≡ true → test (change x) ≡ inside)
      → ((x : A) → changed x ≡ true → test x ≡ inside)
      → ((x : A) → column (change x) ≡ column x + extra)
      → row_count changed xs ≡ 1
      → sum_where test column (update changed change xs)
        ≡ sum_where test column xs + (if inside then extra else 0)
  unfolding sum_where update row_count
  sum_where-update_one changed change extra inside [] s t c h = absurd (omega (arith, h))
  sum_where-update_one changed change extra inside (x ∷ xs) s t c h = ground (
    arith,
    s x,
    t x,
    c x,
    sum_where-update_one changed change extra inside xs s t c,
    sum_where-update_none changed change xs,
  )
