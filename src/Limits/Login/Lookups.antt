-- ===== src/Limits/Login/Lookups.antt =====
-- What an address finds in the table of the limit on logins after each operation on it.
use hysteria2_panel.Prelude.{
  ℕ, ◌≡◌, refl, sym, ◌≤◌, String, true, false, List, [], ◌∷◌, ◌++◌, arith, select_all, length, ltb,
  str_eq, str_eq→eq, str_eq_refl, subst,
}
use hysteria2_panel.Limits.Login.{
  Attempts, attempts_of, set_attempts, pop, recent_at, store, make_room,
}

str_eq-joins : (k a b : String) → str_eq k a ≡ true → str_eq a b ≡ false → str_eq k b ≡ false
str_eq-joins k a b h f = subst (λ z. str_eq z b ≡ false) (sym (str_eq→eq k a h)) f

pub attempts_of-set_attempts :
    (address : String) (times : List ℕ) (table : Attempts)
    → attempts_of address (set_attempts address times table) ≡ times
unfolding attempts_of set_attempts
attempts_of-set_attempts address times [] = ground (arith, str_eq_refl address)
attempts_of-set_attempts address times ((k, old) ∷ rest) =
    ground (arith, attempts_of-set_attempts address times rest)

pub attempts_of-set_attempts_other :
    (address other : String) (times : List ℕ) (table : Attempts)
    → str_eq address other ≡ false
    → attempts_of other (set_attempts address times table) ≡ attempts_of other table
unfolding attempts_of set_attempts
attempts_of-set_attempts_other address other times [] f = ground arith
attempts_of-set_attempts_other address other times ((k, old) ∷ rest) f =
    ground (
      arith,
      str_eq-joins k address other,
      attempts_of-set_attempts_other address other times rest f,
    )

pub attempts_of-pop :
    (address : String) (table : Attempts) → attempts_of address (pop address table) ≡ []
unfolding attempts_of pop
attempts_of-pop address [] = refl
attempts_of-pop address ((k, old) ∷ rest) = ground (arith, attempts_of-pop address rest)

pub attempts_of-pop_other :
    (address other : String) (table : Attempts)
    → str_eq address other ≡ false
    → attempts_of other (pop address table) ≡ attempts_of other table
unfolding attempts_of pop
attempts_of-pop_other address other [] f = refl
attempts_of-pop_other address other ((k, old) ∷ rest) f =
    ground (arith, str_eq-joins k address other, attempts_of-pop_other address other rest f)

pub attempts_of-store :
    (address : String) (times : List ℕ) (table : Attempts)
    → attempts_of address (store address times table) ≡ times
attempts_of-store address [] table = attempts_of-pop address table
attempts_of-store address (t ∷ times) table = attempts_of-set_attempts address (t ∷ times) table

pub attempts_of-store_other :
    (address other : String) (times : List ℕ) (table : Attempts)
    → str_eq address other ≡ false
    → attempts_of other (store address times table) ≡ attempts_of other table
attempts_of-store_other address other [] table f = attempts_of-pop_other address other table f
attempts_of-store_other address other (t ∷ times) table f =
    attempts_of-set_attempts_other address other (t ∷ times) table f

-- What is recent later is recent now.
pub recent_at-later :
    (now later : ℕ) (times : List ℕ)
    → now ≤ later
    → recent_at later (recent_at now times) ≡ recent_at later times
unfolding recent_at select_all
recent_at-later now later [] h = refl
recent_at-later now later (t ∷ times) h = ground (arith, recent_at-later now later times h)

pub recent_at-append :
    (now : ℕ) (xs ys : List ℕ) → recent_at now (xs ++ ys) ≡ recent_at now xs ++ recent_at now ys
unfolding recent_at select_all
recent_at-append now [] ys = refl
recent_at-append now (x ∷ xs) ys = ground (arith, recent_at-append now xs ys)

-- A table that is not full makes no room.
pub make_room-roomy :
    (recent : List ℕ) (table : Attempts)
    → ltb (length table) 4096 ≡ true
    → make_room recent table ≡ table
make_room-roomy [] table h = ground arith
make_room-roomy (t ∷ recent) table h = refl
