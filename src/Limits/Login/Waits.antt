-- ===== src/Limits/Login/Waits.antt =====
-- Waiting as long as the limit on logins says is enough.
use hysteria2_panel.Prelude.{
  ℕ, ◌≡◌, refl, sym, subst, ◌+◌, ◌-◌, ◌*◌, ◌/◌, ◌%◌, max, ◌≤◌, ◌<◌, String, true, false, List, [],
  ◌∷◌, inl, inr, arith, Bool-cases, select_all, length, ltb, ◌==◌, if◌then◌else◌,
}
use hysteria2_panel.Limits.Usage.{second}
use hysteria2_panel.Limits.Login.{
  Attempts, window, attempts_of, recent_at, first_wait, wait_after, retry_after, is_allowed,
}
use hysteria2_panel.Limits.Login.Lookups.{attempts_of-store}
use hysteria2_panel.Limits.Login.Bounds.{Bounded, attempts_of-le, length-recent_at_le}

whole_seconds : (n : ℕ) → n ≤ max 1 (n / second + (if n % second == 0 then 0 else 1)) * second
whole_seconds n = elim (Bool-cases (n % second == 0)) [
  | inl t ↦ rw t (omega (arith, rest t))
  | inr f ↦ rw f (omega arith)
]
  where
    rest : (n % second == 0) ≡ true → n % second ≡ 0
    rest t = ground arith

-- The first of five attempts has left the window.
first_leaves :
    (later t : ℕ) (times : List ℕ)
    → t + window ≤ later
    → length (t ∷ times) ≤ 5
    → length (recent_at later (t ∷ times)) < 5
unfolding recent_at select_all
first_leaves later t times h few = ground (arith, length-recent_at_le later times)

recent_leaves :
    (now later : ℕ) (recent : List ℕ)
    → length recent ≤ 5
    → now + wait_after now recent * second ≤ later
    → length (recent_at later recent) < 5
unfolding wait_after
recent_leaves now later [] few h = omega (arith, length-recent_at_le later [])
recent_leaves now later (t ∷ recent) few h = elim (Bool-cases (ltb (length (t ∷ recent)) 5)) [
  | inl less ↦ omega (arith, length-recent_at_le later (t ∷ recent), below less)
  | inr full ↦
      first_leaves later t recent
        (omega (arith, whole_seconds (t + window - now), wait_is_first full, h)) few
]
  where
    below : ltb (length (t ∷ recent)) 5 ≡ true → length (t ∷ recent) < 5
    below less = ground arith

    wait_is_first :
        ltb (length (t ∷ recent)) 5 ≡ false
        → wait_after now (t ∷ recent) ≡ first_wait now (t ∷ recent)
    wait_is_first full = rw full refl

-- An address that is told to wait, and waits that many seconds, is allowed then, if it makes no attempt
-- in between. The table is bounded, as every table that `authenticate` makes of the empty one.
pub waiting_is_enough :
    (now later : ℕ) (address : String) (table : Attempts)
    → Bounded table
    → now + (retry_after now address table).0 * second ≤ later
    → is_allowed later address (retry_after now address table).1 ≡ true
waiting_is_enough now later address table b h =
    let recent = recent_at now (attempts_of address table) in
    let few =
      recent_leaves now later recent
        (omega (
          arith,
          length-recent_at_le now (attempts_of address table),
          attempts_of-le address table b.entries,
        ))
        h in
    subst (λ x. ltb (length (recent_at later x)) 5 ≡ true)
      (sym (attempts_of-store address recent table)) (ground (arith, few))
