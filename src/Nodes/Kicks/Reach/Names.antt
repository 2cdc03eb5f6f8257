-- ===== src/Nodes/Kicks/Reach/Names.antt =====
-- The names of a kick: its chunks and its order lose none of them.
use hysteria2_panel.Prelude.{
  ℕ, zero, suc, ◌≡◌, refl, ap, String, Bool, true, false, ◌&&◌, ◌||◌, List, [], ◌∷◌, ◌++◌, inl, inr,
  arith, select_all, row_count, ltb, Bool-cases, str_eq, str_eq→eq,
}
use hysteria2_panel.Nodes.Row.{Node}
use hysteria2_panel.Nodes.Kicks.{contains, distinct, insert_by, sorted_by, chunks_from}

unfoldable pub has_name : String → List (List String) → Bool
has_name name [] = false
has_name name (chunk ∷ chunks) = contains name chunk || has_name name chunks

pub chunks-contains :
    (name : String) (size room : ℕ) (current names : List String)
    → (contains name current || contains name names) ≡ true
    → has_name name (chunks_from size room current names) ≡ true
unfolding contains chunks_from has_name
chunks-contains name size room current [] h = ground arith
chunks-contains name size zero current (x ∷ xs) h =
    ground (arith, chunks-contains name size size (x ∷ []) xs)
chunks-contains name size (suc room) current (x ∷ xs) h =
    chunks-contains name size room (current ++ x ∷ []) xs (ground (arith, contains-snoc current))
  where
    contains-snoc :
        (ys : List String) → contains name (ys ++ x ∷ []) ≡ (contains name ys || str_eq x name)
    contains-snoc [] = ground arith
    contains-snoc (y ∷ ys) = ground (arith, contains-snoc ys)

pub distinct-contains :
    (name : String) (names : List String)
    → contains name names ≡ true
    → contains name (distinct names) ≡ true
unfolding contains distinct
distinct-contains name [] h = h
distinct-contains name (x ∷ xs) h = elim (Bool-cases (str_eq x name)) [
  | inr other ↦ ground (arith, distinct-contains name xs)
  | inl same ↦
      let equal : contains x xs ≡ contains name xs =
        ap (λ z. contains z xs) (str_eq→eq x name same) in
      ground (arith, distinct-contains name xs)
]

module _ {A : Type 0} (key : A → String) where
  pub row_count-insert_by :
      (test : A → Bool) (x : A) (xs : List A)
      → row_count test (insert_by key x xs) ≡ row_count test (x ∷ xs)
  unfolding row_count insert_by
  row_count-insert_by test x [] = refl
  row_count-insert_by test x (y ∷ ys) = ground (arith, row_count-insert_by test x ys)

  pub row_count-sorted_by :
      (test : A → Bool) (xs : List A) → row_count test (sorted_by key xs) ≡ row_count test xs
  unfolding row_count sorted_by
  row_count-sorted_by test [] = refl
  row_count-sorted_by test (x ∷ xs) =
      ground (arith, row_count-insert_by test x (sorted_by key xs), row_count-sorted_by test xs)

pub contains-row_count :
    (name : String) (xs : List String)
    → contains name xs ≡ ltb 0 (row_count (λ x. str_eq x name) xs)
unfolding contains row_count
contains-row_count name [] = refl
contains-row_count name (x ∷ xs) = ground (arith, contains-row_count name xs)

pub row_count-select_all :
    (test kept : Node → Bool) (xs : List Node)
    → row_count kept (select_all test xs) ≡ row_count (λ x. kept x && test x) xs
unfolding row_count select_all
row_count-select_all test kept [] = refl
row_count-select_all test kept (x ∷ xs) = ground (arith, row_count-select_all test kept xs)
