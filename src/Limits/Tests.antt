-- ===== src/Limits/Tests.antt =====
-- The theorems on the limits at concrete inputs.
use hysteria2_panel.Prelude.{
  ℕ, suc, ◌-◌, ◌<◌, ◌⊎◌, inr, Bool, leb, none, some, ◌+◌, ◌≤◌, ◌≡◌, ◌≢◌, refl, String, true, false,
  List, [], ◌∷◌, arith, str_eq, length, row_count, select,
}
use hysteria2_panel.Limits.Usage.{Windows, scan, admit, consume_many, window_at}
use hysteria2_panel.Limits.Usage.Budget.{
  windows_stay_bounded, refusal_spends_nothing, budgets_are_kept, Within,
}
use hysteria2_panel.Limits.Gate.{Gate, drain_turn}
use hysteria2_panel.Limits.Gate.Drain.{
  Ends, drain_loop, drain_loop-Ends, mutations, goes_on, is_late,
}
use hysteria2_panel.Limits.Gate.Exclusion.{World, inside, draining}

-- A user who has made two requests in a window that ends at 70 seconds
abbrev two_spent : Windows
two_spent = ("user", record { expiry = 70000000; count = 2 }) ∷ []

abbrev budget : ℕ → List (String × ℕ)
budget n = ("user", n) ∷ []

windows_stay_bounded_example : length ((consume_many 20000000 (budget 3) two_spent).1) ≤ 4096
windows_stay_bounded_example = windows_stay_bounded 20000000 (budget 3) two_spent (omega arith)

third_refused : (consume_many 20000000 (budget 2) two_spent).0 ≢ 0
unfolding consume_many scan admit select str_eq
third_refused h = absurd (omega (arith, h))

refusal_spends_nothing_example :
    window_at 50000000 "user" ((consume_many 20000000 (budget 2) two_spent).1)
    ≡ window_at 50000000 "user" two_spent
unfolding row_count
refusal_spends_nothing_example =
    refusal_spends_nothing 20000000 50000000 (budget 2) two_spent "user" (omega arith) (refl, tt)
      third_refused

budgets_are_kept_example : Within (λ _. 3) ((consume_many 20000000 (budget 3) two_spent).1)
budgets_are_kept_example =
    budgets_are_kept (λ _. 3) 20000000 (budget 3) two_spent (omega arith, tt) (omega arith, tt)

-- A maintenance that was asked for while nobody mutates, and has begun
abbrev shut_gate : Gate
shut_gate = record { maintenance_active = true; active_mutations = 0 }

abbrev asked : World
asked = record { gate = shut_gate; mutating = 0; phase = draining }

abbrev running : World
running = record { gate = shut_gate; mutating = 0; phase = inside }

-- Two mutations end one after the other; from the third waking on, it is too late.
abbrev wakes : ℕ → Bool × Gate
wakes i = (leb 3 i, record shut_gate { active_mutations = 2 - i })

wakes-woken :
    (i : ℕ)
    → goes_on wakes i ≡ true
    → (is_late wakes (suc i) ≡ true) ⊎ (mutations wakes (suc i) < mutations wakes i)
wakes-woken i goes = inr (ground arith)

drain_loop-Ends_example : (n : ℕ) × (n ≤ mutations wakes 0 + 1) × Ends wakes 0 n
drain_loop-Ends_example = drain_loop-Ends wakes wakes-woken

-- A mutation does not end: it is too late on the second waking, and the loop gives up there.
abbrev stuck : ℕ → Bool × Gate
stuck i = (leb 1 i, record shut_gate { active_mutations = 1 })

abbrev given_up : Gate
given_up = record { maintenance_active = false; active_mutations = 1 }

gave_up_when_late : (drain_loop 1 stuck 0 ≡ none) × (drain_loop 2 stuck 0 ≡ some (false, given_up))
unfolding drain_loop drain_turn
gave_up_when_late = (refl, refl)
