-- ===== src/Limits/Gate/Exclusion.antt =====
-- The threads that go through the gate, as steps that interleave in any order.
use hysteria2_panel.Prelude.{
  ℕ, ◌+◌, ◌-◌, ◌≡◌, Bool, true, false, not, ◌||◌, ok, err, Result, ltb, ◌==◌,
}
use hysteria2_panel.Limits.Gate.{
  Gate, open_gate, begin_mutation, finish_mutation, announce_maintenance, drain_turn, Turn,
  Unbalanced, finish_maintenance,
}

abbrev pub returns : {A : Type 0} → Result Unbalanced A → Bool
returns (ok _) = true
returns (err _) = false

-- Where the thread of a maintenance is
pub data Phase : Type 0 where
  idle draining inside : Phase

abbrev pub is_idle : Phase → Bool
is_idle idle = true
is_idle _ = false

abbrev pub is_draining : Phase → Bool
is_draining draining = true
is_draining _ = false

abbrev pub is_inside : Phase → Bool
is_inside inside = true
is_inside _ = false

-- The gate, how many threads are between `begin_mutation` and `finish_mutation`, and the phase of the
-- maintenance
pub record World : Type 0 where
  pub gate : Gate
  pub mutating : ℕ
  pub phase : Phase

abbrev pub first_world : World
first_world = record { gate = open_gate; mutating = 0; phase = idle }

pub data Step : World → World → Type 0 where
  begin :
      (w : World) (g : Gate)
      → begin_mutation w.gate ≡ (true, g)
      → Step w (record { gate = g; mutating = w.mutating + 1; phase = w.phase })
  begin_refused :
      (w : World) (g : Gate)
      → begin_mutation w.gate ≡ (false, g)
      → Step w (record { gate = g; mutating = w.mutating; phase = w.phase })
  finish :
      (w : World) (g : Gate)
      → ltb 0 w.mutating ≡ true
      → finish_mutation w.gate ≡ ok g
      → Step w (record { gate = g; mutating = w.mutating - 1; phase = w.phase })
  ask :
      (w : World) (g : Gate)
      → announce_maintenance w.gate ≡ (true, g)
      → Step w (record { gate = g; mutating = w.mutating; phase = draining })
  ask_refused :
      (w : World) (g : Gate)
      → announce_maintenance w.gate ≡ (false, g)
      → Step w (record { gate = g; mutating = w.mutating; phase = w.phase })
  enter :
      (w : World) (late : Bool) (g : Gate)
      → is_draining w.phase ≡ true
      → drain_turn late w.gate ≡ (Turn.entered, g)
      → Step w (record { gate = g; mutating = w.mutating; phase = inside })
  give_up :
      (w : World) (late : Bool) (g : Gate)
      → is_draining w.phase ≡ true
      → drain_turn late w.gate ≡ (Turn.gave_up, g)
      → Step w (record { gate = g; mutating = w.mutating; phase = idle })
  wait :
      (w : World) (late : Bool) (g : Gate)
      → is_draining w.phase ≡ true
      → drain_turn late w.gate ≡ (Turn.waits, g)
      → Step w (record { gate = g; mutating = w.mutating; phase = draining })
  leave :
      (w : World) (g : Gate)
      → is_inside w.phase ≡ true
      → finish_maintenance w.gate ≡ ok g
      → Step w (record { gate = g; mutating = w.mutating; phase = idle })

pub data Reaches : World → Type 0 where
  start : Reaches first_world
  step : (v w : World) → Reaches v → Step v w → Reaches w

-- The gate counts the threads that are inside it, and shuts while a maintenance drains or runs.
record IsBalanced (w : World) : Type 0 where
  counted : w.gate.active_mutations ≡ w.mutating
  flagged : w.gate.maintenance_active ≡ not (is_idle w.phase)
  empty : (not (is_inside w.phase) || w.mutating == 0) ≡ true

-- `finish_mutation`, and `finish_maintenance`, return.
abbrev pub ends_mutation : Gate → Bool
ends_mutation g = returns (finish_mutation g)

abbrev pub ends_maintenance : Gate → Bool
ends_maintenance g = returns (finish_maintenance g)
