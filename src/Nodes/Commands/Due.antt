-- ===== src/Nodes/Commands/Due.antt =====
-- The commands that a poll considers are rows of the table, and at most 32.
use hysteria2_panel.Prelude.{ℕ, zero, suc, String, List, [], ◌∷◌, All, select_all-All, if_cases}
use hysteria2_panel.Nodes.Row.{Command}
use hysteria2_panel.Nodes.Database.{Database}
use hysteria2_panel.Nodes.Commands.Delivery.{before, insert_ordered, ordered, first, due}

module _ {ℓ} (P : Command → Type ℓ) where
  insert_ordered-All :
      (c : Command) (xs : List Command) → P c → All P xs → All P (insert_ordered c xs)
  unfolding insert_ordered
  insert_ordered-All c [] p h = (p, tt)
  insert_ordered-All c (x ∷ xs) p (q, h) =
      if_cases (All P) (before c x) (c ∷ x ∷ xs) (x ∷ insert_ordered c xs) (λ _. (p, (q, h)))
        (λ _. (q, insert_ordered-All c xs p h))

  ordered-All : (xs : List Command) → All P xs → All P (ordered xs)
  unfolding ordered
  ordered-All [] h = tt
  ordered-All (x ∷ xs) (p, h) = insert_ordered-All x (ordered xs) p (ordered-All xs h)

  first-All : (n : ℕ) (xs : List Command) → All P xs → All P (first n xs)
  unfolding first
  first-All zero xs h = tt
  first-All (suc n) [] h = tt
  first-All (suc n) (x ∷ xs) (p, h) = (p, first-All n xs h)

  pub due-All :
      (node_id : String) (now : ℕ) (db : Database) → All P db.commands → All P (due node_id now db)
  unfolding due
  due-All node_id now db h =
      first-All 32 _ (ordered-All _ (select_all-All _ db.commands (λ x t p. p) h))
