-- ===== src/Limits/Gate.antt =====
-- The gate of hysteria2_panel.py between the threads that change the database and the maintenance of
-- it: `begin_mutation`, `finish_mutation`, `begin_maintenance` and `finish_maintenance`. Each method
-- holds the condition's lock; `begin_maintenance` gives it up while it waits, so it is its first part
-- and one part for each time that it wakes up.
pub mod Exclusion
pub mod Drain
use hysteria2_panel.Prelude.{
  ℕ, ◌+◌, ◌-◌, Bool, true, false, Result, ok, err, guard, ◌>>◌, ltb, ◌==◌, if◌then◌else◌,
}

pub record Gate : Type 0 where
  pub maintenance_active : Bool
  pub active_mutations : ℕ

abbrev pub open_gate : Gate
open_gate = record { maintenance_active = false; active_mutations = 0 }

pub data Unbalanced : Type 0 where
  mutation_gate maintenance_gate : Unbalanced

unfoldable pub begin_mutation : Gate → Bool × Gate
begin_mutation g =
    if g.maintenance_active
    then (false, g)
    else (true, record g { active_mutations = g.active_mutations + 1 })

unfoldable pub finish_mutation : Gate → Result Unbalanced Gate
finish_mutation g = do
  guard (ltb 0 g.active_mutations) Unbalanced.mutation_gate
  ok (record g { active_mutations = g.active_mutations - 1 })

-- `begin_maintenance` up to its loop: `false` is its result, and after `true` it goes on to the loop.
unfoldable pub announce_maintenance : Gate → Bool × Gate
announce_maintenance g =
    if g.maintenance_active then (false, g) else (true, record g { maintenance_active = true })

-- What one turn of the loop comes to
pub data Turn : Type 0 where
  entered gave_up waits : Turn

-- One turn of the loop; `late` tells that the time to drain has passed.
unfoldable pub drain_turn : Bool → Gate → Turn × Gate
drain_turn late g =
    if g.active_mutations == 0
    then (Turn.entered, g)
    else if late
    then (Turn.gave_up, record g { maintenance_active = false })
    else (Turn.waits, g)

unfoldable pub finish_maintenance : Gate → Result Unbalanced Gate
finish_maintenance g = do
  guard g.maintenance_active Unbalanced.maintenance_gate
  ok (record g { maintenance_active = false })
