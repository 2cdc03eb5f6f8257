-- ===== src/Limits/Login/Bounds.antt =====
-- The memory of the limit on logins: the table stays bounded under any sequence of calls.
use hysteria2_panel.Prelude.{
  ℕ, suc, ◌≡◌, refl, sym, ap, subst, ◌∙◌, ◌+◌, ◌-◌, ◌/◌, ◌%◌, ◌==◌, max, ◌≤◌, ◌<◌, String, Bool,
  true, false, not, ◌||◌, Option, none, some, List, [], ◌∷◌, ◌++◌, arith, if_cases, select_all,
  length, length-append, All, leb, ltb, if◌then◌else◌, str_eq, str_eq_refl,
}
use hysteria2_panel.Limits.Usage.{second}
use hysteria2_panel.Limits.Login.Lookups.{
  attempts_of-set_attempts, attempts_of-store, recent_at-later,
}
use hysteria2_panel.Limits.Login.{
  window, Attempts, attempts_of, set_attempts, pop, recent_at, store, keep_recent, wait_after,
  last_at, oldest_of, evict, make_room, record_failure, Call, judge, authenticate, authenticate_all,
}

-- An address has one to five attempts.
abbrev pub IsLimited : String × List ℕ → Type 0
IsLimited e = (1 ≤ length (e.1)) × (length (e.1) ≤ 5)

-- At most 4096 addresses
pub record Bounded (table : Attempts) : Type 0 where
  pub size : length table ≤ 4096
  pub entries : All IsLimited table

pub length-pop_le :
    (address : String) (table : Attempts) → length (pop address table) ≤ length table
unfolding pop
length-pop_le address [] = omega arith
length-pop_le address ((k, times) ∷ rest) = ground (arith, length-pop_le address rest)

pop-All :
    (address : String) (table : Attempts) → All IsLimited table → All IsLimited (pop address table)
unfolding pop
pop-All address [] h = tt
pop-All address ((k, times) ∷ rest) (p, h) =
    if_cases (All IsLimited) (str_eq k address) (pop address rest) ((k, times) ∷ pop address rest)
      (λ _. pop-All address rest h) (λ _. (p, pop-All address rest h))

set_attempts-All :
    (address : String) (times : List ℕ) (table : Attempts)
    → IsLimited (address, times)
    → All IsLimited table
    → All IsLimited (set_attempts address times table)
unfolding set_attempts
set_attempts-All address times [] p h = (p, tt)
set_attempts-All address times ((k, old) ∷ rest) p (q, h) =
    if_cases (All IsLimited) (str_eq k address) ((k, times) ∷ rest)
      ((k, old) ∷ set_attempts address times rest) (λ _. (p, h))
      (λ _. (q, set_attempts-All address times rest p h))

length-set_attempts_le :
    (address : String) (times : List ℕ) (table : Attempts)
    → length (set_attempts address times table) ≤ length table + 1
unfolding set_attempts
length-set_attempts_le address times [] = omega arith
length-set_attempts_le address times ((k, old) ∷ rest) =
    ground (arith, length-set_attempts_le address times rest)

-- An address that has attempts is in the table, so it needs no room.
length-set_attempts_known :
    (address : String) (times : List ℕ) (table : Attempts)
    → 1 ≤ length (attempts_of address table)
    → length (set_attempts address times table) ≡ length table
unfolding set_attempts attempts_of
length-set_attempts_known address times [] h = absurd (omega (arith, h))
length-set_attempts_known address times ((k, old) ∷ rest) h =
    ground (arith, length-set_attempts_known address times rest)

pub length-recent_at_le : (now : ℕ) (times : List ℕ) → length (recent_at now times) ≤ length times
unfolding recent_at select_all
length-recent_at_le now [] = omega arith
length-recent_at_le now (t ∷ times) = ground (arith, length-recent_at_le now times)

pub attempts_of-le :
    (address : String) (table : Attempts)
    → All IsLimited table
    → length (attempts_of address table) ≤ 5
unfolding attempts_of
attempts_of-le address [] h = omega arith
attempts_of-le address ((k, times) ∷ rest) (p, h) =
    ground (arith, p.1, attempts_of-le address rest h)

pub length-keep_recent_le :
    (now : ℕ) (address : String) (table : Attempts)
    → length (keep_recent now address table) ≤ length table
length-keep_recent_le now address table =
    size (recent_at now (attempts_of address table))
      (length-recent_at_le now (attempts_of address table))
  where
    size :
        (recent : List ℕ)
        → length recent ≤ length (attempts_of address table)
        → length (store address recent table) ≤ length table
    size [] h = length-pop_le address table
    size (t ∷ recent) h =
        omega (arith, length-set_attempts_known address (t ∷ recent) table (omega (arith, h)))

keep_recent-Bounded :
    (now : ℕ) (address : String) (table : Attempts)
    → Bounded table
    → Bounded (keep_recent now address table)
keep_recent-Bounded now address table b = record {
  size = omega (arith, length-keep_recent_le now address table, b.size);
  entries =
      stored (recent_at now (attempts_of address table))
        (length-recent_at_le now (attempts_of address table));
}
  where
    stored :
        (recent : List ℕ)
        → length recent ≤ length (attempts_of address table)
        → All IsLimited (store address recent table)
    stored [] h = pop-All address table b.entries
    stored (t ∷ recent) h =
        set_attempts-All address (t ∷ recent) table
          (omega arith, omega (arith, h, attempts_of-le address table b.entries)) b.entries

unfoldable pub is_known : String → Attempts → Bool
is_known address [] = false
is_known address ((k, times) ∷ rest) = str_eq k address || is_known address rest

pop-shrinks :
    (address : String) (table : Attempts)
    → is_known address table ≡ true
    → suc (length (pop address table)) ≤ length table
unfolding is_known pop
pop-shrinks address [] h = absurd (cc)
pop-shrinks address ((k, times) ∷ rest) h =
    ground (arith, pop-shrinks address rest, length-pop_le address rest)

oldest_of-known :
    (address : String) (at : ℕ) (rest : Attempts)
    → (str_eq address (oldest_of address at rest) || is_known (oldest_of address at rest) rest)
      ≡ true
unfolding is_known oldest_of
oldest_of-known address at [] = ground (arith, str_eq_refl address)
oldest_of-known address at ((k, times) ∷ rest) =
    if_cases (λ x. (str_eq address x || (str_eq k x || is_known x rest)) ≡ true)
      (ltb (last_at times) at) (oldest_of k (last_at times) rest) (oldest_of address at rest)
      (λ _. ground (arith, oldest_of-known k (last_at times) rest))
      (λ _. ground (arith, oldest_of-known address at rest))

evict-shrinks : (table : Attempts) → 1 ≤ length table → suc (length (evict table)) ≤ length table
unfolding is_known
evict-shrinks [] h = absurd (omega (arith, h))
evict-shrinks ((k, times) ∷ rest) h =
    pop-shrinks (oldest_of k (last_at times) rest) ((k, times) ∷ rest)
      (oldest_of-known k (last_at times) rest)

evict-All : (table : Attempts) → All IsLimited table → All IsLimited (evict table)
evict-All [] h = tt
evict-All ((k, times) ∷ rest) h = pop-All (oldest_of k (last_at times) rest) ((k, times) ∷ rest) h

make_room-All :
    (recent : List ℕ) (table : Attempts)
    → All IsLimited table
    → All IsLimited (make_room recent table)
make_room-All [] table h =
    if_cases (All IsLimited) (leb 4096 (length table)) (evict table) table (λ _. evict-All table h)
      (λ _. h)
make_room-All (t ∷ recent) table h = h

make_room-size : (table : Attempts) → length table ≤ 4096 → suc (length (make_room [] table)) ≤ 4096
make_room-size table h =
    if_cases (λ x. suc (length x) ≤ 4096) (leb 4096 (length table)) (evict table) table
      (λ t. omega (arith, evict-shrinks table (ground arith), h)) (λ f. ground arith)

-- A failure that follows less than five recent attempts
record_failure-Bounded :
    (now : ℕ) (address : String) (table : Attempts)
    → length (recent_at now (attempts_of address table)) < 5
    → Bounded table
    → Bounded (record_failure now address table).1
unfolding record_failure
record_failure-Bounded now address table few b =
    keep_recent-Bounded now address
      (set_attempts address (recent_at now (attempts_of address table) ++ now ∷ [])
        (make_room (recent_at now (attempts_of address table)) (keep_recent now address table)))
      (record {
        size = size (recent_at now (attempts_of address table)) refl;
        entries =
            set_attempts-All address (recent_at now (attempts_of address table) ++ now ∷ [])
              (make_room (recent_at now (attempts_of address table))
                (keep_recent now address table))
              (
                omega (arith, length-append (recent_at now (attempts_of address table)) (now ∷ [])),
                omega (
                  arith,
                  few,
                  length-append (recent_at now (attempts_of address table)) (now ∷ []),
                ),
              )
              (make_room-All (recent_at now (attempts_of address table))
                (keep_recent now address table) kept.entries);
      })
  where
    kept : Bounded (keep_recent now address table)
    kept = keep_recent-Bounded now address table b

    size :
        (recent : List ℕ)
        → recent_at now (attempts_of address table) ≡ recent
        → length (
            set_attempts address
              (recent ++ now ∷ [])
              (make_room recent (keep_recent now address table)))
          ≤ 4096
    size [] e = omega (
      arith,
      length-set_attempts_le address (now ∷ []) (make_room [] (keep_recent now address table)),
      make_room-size (keep_recent now address table) kept.size,
    )
    size (t ∷ recent) e = omega (
      arith,
      length-set_attempts_known address (t ∷ recent ++ now ∷ []) (keep_recent now address table)
          known,
      kept.size,
    )
      where
        known : 1 ≤ length (attempts_of address (keep_recent now address table))
        known =
            subst (λ x. 1 ≤ length x)
              (sym (
                ap (λ x. attempts_of address (store address x table)) e
                ∙ attempts_of-set_attempts address (t ∷ recent) table))
              (omega arith)

judge-Bounded :
    (now : ℕ) (address : String) (verified : Option String) (table : Attempts)
    → length (recent_at now (attempts_of address table)) < 5
    → Bounded table
    → Bounded (judge now address verified table).1
judge-Bounded now address (some id) table few b = record {
  size = omega (arith, length-pop_le address table, b.size);
  entries = pop-All address table b.entries;
}
judge-Bounded now address none table few b = record_failure-Bounded now address table few b

-- An address has to wait exactly when it has five recent attempts.
few_recent : (now : ℕ) (recent : List ℕ) → ltb 0 (wait_after now recent) ≡ false → length recent < 5
unfolding wait_after
few_recent now [] h = omega arith
few_recent now (t ∷ recent) h =
    let remaining = t + window - now in
    ground (arith, positive (remaining / second + (if remaining % second == 0 then 0 else 1)))
  where
    positive : (x : ℕ) → 1 ≤ max 1 x
    positive x = omega arith

authenticate-Bounded :
    (c : Call) (table : Attempts) → Bounded table → Bounded (authenticate c table).1
unfolding authenticate
authenticate-Bounded c table b =
    let recent = recent_at c.now (attempts_of c.address table) in
    let kept = keep_recent c.now c.address table in
    let same =
      ap (recent_at c.now) (attempts_of-store c.address recent table)
      ∙ recent_at-later c.now c.now (attempts_of c.address table) (omega arith) in
    if_cases (λ x. Bounded x.1) (ltb 0 (wait_after c.now recent))
      ((none, wait_after c.now recent, false), kept)
      (if not c.slot_is_free
        then ((none, 1, false), kept)
        else judge c.now c.address c.verified kept)
      (λ _. keep_recent-Bounded c.now c.address table b)
      (λ f.
        if_cases (λ x. Bounded x.1) (not c.slot_is_free) ((none, 1, false), kept)
          (judge c.now c.address c.verified kept) (λ _. keep_recent-Bounded c.now c.address table b)
          (λ _.
            judge-Bounded c.now c.address c.verified kept
              (subst (λ x. length x < 5) (sym same) (few_recent c.now recent f))
              (keep_recent-Bounded c.now c.address table b)))

-- After any sequence of calls of `authenticate`, on any clock and whatever the verifier returns, a
-- bounded table still holds at most 4096 addresses, and each of them has one to five attempts.
pub login_table_stays-Bounded :
    (calls : List Call) (table : Attempts)
    → Bounded table
    → Bounded (authenticate_all calls table).1
unfolding authenticate_all
login_table_stays-Bounded [] table b = b
login_table_stays-Bounded (c ∷ calls) table b =
    login_table_stays-Bounded calls (authenticate c table).1 (authenticate-Bounded c table b)
