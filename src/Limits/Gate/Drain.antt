-- ===== src/Limits/Gate/Drain.antt =====
-- The loop of `begin_maintenance` of hysteria2_panel.py. What it finds each time that it wakes up,
-- whether the time to drain has passed and the gate, comes from the clock and the other threads.
use hysteria2_panel.Prelude.{
  ℕ, zero, suc, ◌≡◌, refl, ◌+◌, ◌<◌, ◌≤◌, ◌⊎◌, ◌∙◌, inl, inr, Bool, true, false, Option, none, some,
  arith, Bool-cases, ◌==◌, if◌then◌else◌, not, ◌&&◌, ltb, subst,
}
use hysteria2_panel.Limits.Gate.{Gate, Turn, drain_turn}

-- The result of a turn, or of those after it, and the gate that is left
abbrev pub result_of : Turn × Gate → Option (Bool × Gate) → Option (Bool × Gate)
result_of (Turn.entered, g) rest = some (true, g)
result_of (Turn.gave_up, g) rest = some (false, g)
result_of (Turn.waits, g) rest = rest

-- The loop from the turn `i` on, for a number of turns: `none` is a loop that goes on.
unfoldable pub drain_loop : ℕ → (ℕ → Bool × Gate) → ℕ → Option (Bool × Gate)
unfolding drain_turn
drain_loop zero wakes i = none
drain_loop (suc turns) wakes i =
    let rest = drain_loop turns wakes (suc i) in
    result_of (drain_turn ((wakes i).0) ((wakes i).1)) rest

module _ (wakes : ℕ → Bool × Gate) where
  abbrev pub is_late : ℕ → Bool
  is_late i = (wakes i).0

  abbrev pub mutations : ℕ → ℕ
  mutations i = ((wakes i).1).active_mutations

  -- A turn that goes on to wait
  abbrev pub goes_on : ℕ → Bool
  goes_on i = ltb 0 (mutations i) && not (is_late i)

  -- What the loop returns at a turn, and the gate that it leaves
  abbrev pub outcome : ℕ → Bool × Gate
  outcome i =
      if mutations i == 0
      then (true, (wakes i).1)
      else (false, record ((wakes i).1) { maintenance_active = false })

  -- The loop from the turn `from` on returns after exactly `n` turns that go on to wait: the next one
  -- is the first that finds no mutation or comes too late.
  pub record Ends (from n : ℕ) : Type 0 where
    pub ended : drain_loop (suc n) wakes from ≡ some (outcome (from + n))
    pub not_before : drain_loop n wakes from ≡ none
    pub waited : (k : ℕ) → k < n → goes_on (from + k) ≡ true
    pub stopped : goes_on (from + n) ≡ false

  last_turn : (i : ℕ) → goes_on i ≡ false → drain_loop 1 wakes i ≡ some (outcome i)
  unfolding drain_loop drain_turn
  last_turn i h = ground arith

  waiting_turn :
      (i turns : ℕ)
      → goes_on i ≡ true
      → drain_loop (suc turns) wakes i ≡ drain_loop turns wakes (suc i)
  unfolding drain_loop drain_turn
  waiting_turn i turns h = ground arith

  Ends-now : (i : ℕ) → goes_on i ≡ false → Ends i 0
  unfolding drain_loop
  Ends-now i h = record {
    ended = subst (λ j. drain_loop 1 wakes i ≡ some (outcome j)) same (last_turn i h);
    not_before = refl;
    waited = λ k p. absurd (omega (arith, p));
    stopped = subst (λ j. goes_on j ≡ false) same h;
  }
    where
      same : i ≡ i + 0
      same = omega arith

  Ends-later : (i n : ℕ) → goes_on i ≡ true → Ends (suc i) n → Ends i (suc n)
  Ends-later i n h e = record {
    ended =
        waiting_turn i (suc n) h
        ∙ subst (λ j. drain_loop (suc n) wakes (suc i) ≡ some (outcome j)) next e.ended;
    not_before = waiting_turn i n h ∙ e.not_before;
    waited = λ k p. waited_at k p;
    stopped = subst (λ j. goes_on j ≡ false) next e.stopped;
  }
    where
      next : suc i + n ≡ i + suc n
      next = omega arith

      waited_at : (k : ℕ) → k < suc n → goes_on (i + k) ≡ true
      waited_at zero p = subst (λ j. goes_on j ≡ true) (omega arith) h
      waited_at (suc k) p =
          subst (λ j. goes_on j ≡ true) (omega arith) (e.waited k (omega (arith, p)))

  module _
      (woken : (i : ℕ)
        → goes_on i ≡ true
        → (is_late (suc i) ≡ true) ⊎ (mutations (suc i) < mutations i)) where
    Ends-from : (bound i : ℕ) → mutations i ≤ bound → (n : ℕ) × (n ≤ mutations i + 1) × Ends i n
    Ends-from zero i h = (0, omega arith, Ends-now i (ground arith))
    Ends-from (suc bound) i h = elim (Bool-cases (goes_on i)) [
      | inr stops ↦ (0, omega arith, Ends-now i stops)
      | inl goes ↦ elim (woken i goes) [
        | inl late ↦ (1, omega arith, Ends-later i 0 goes (Ends-now (suc i) (ground (arith, late))))
        | inr fewer ↦
            let (n, few, e) = Ends-from bound (suc i) (omega (arith, h, fewer)) in
            (suc n, omega (arith, few, fewer), Ends-later i n goes e)
      ]
    ]

    -- The loop of `begin_maintenance` ends where each wait is followed by the end of a mutation or by
    -- the time to give up. It waits at most once more than there are mutations at its start, and as
    -- long as it finds a mutation before that time. It returns at the first turn that finds none or
    -- comes too late: `True` with the gate as it is if it finds none, else `False` with the
    -- maintenance taken back.
    pub drain_loop-Ends : (n : ℕ) × (n ≤ mutations 0 + 1) × Ends 0 n
    drain_loop-Ends = Ends-from (mutations 0) 0 (omega arith)
