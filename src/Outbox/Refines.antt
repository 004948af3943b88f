-- ===== src/Outbox/Refines.antt =====
-- Runs of the outbox refine the phases of its notifications.
use maibot_lunagentic_resear.Prelude.{String, ◌≡◌, refl, ◌≢◌, true, [], arith}
use maibot_lunagentic_resear.Dict.{lookup}
use maibot_lunagentic_resear.Outbox.{OutboxRow}
use maibot_lunagentic_resear.Outbox.Phases.{
  Phase, unsent, append_due, append_done, append_lost, trigger_due, trigger_done, dropped,
  unsendable, allows, phase,
}
use maibot_lunagentic_resear.Outbox.Steps.{
  OutboxState, OutboxStep, IsSound, OutboxStep-Moves, OutboxStep-IsSound,
}

pub data OutboxRun (render : OutboxRow → String) : OutboxState → Type 0 where
  opens : OutboxRun render (record { table = []; claims = [] })
  goes_on :
      {state next : OutboxState}
      → OutboxRun render state
      → OutboxStep render state next
      → OutboxRun render next

OutboxRun-IsSound :
    {render : OutboxRow → String} {state : OutboxState} → OutboxRun render state → IsSound state
OutboxRun-IsSound opens = record { distinct = tt; held = tt }
OutboxRun-IsSound (goes_on run step) = OutboxStep-IsSound step (OutboxRun-IsSound run)

pub OutboxRun-refines :
    {render : OutboxRow → String} {state next : OutboxState} (id : String)
    → OutboxRun render state
    → OutboxStep render state next
    → allows (phase id state.table) (phase id next.table) ≡ true
OutboxRun-refines id run step = (OutboxStep-Moves step (OutboxRun-IsSound run)).1 id

allows-ne_lost : (p : Phase) → p ≢ append_lost → allows p append_lost ≡ true → ⊥
unfolding allows
allows-ne_lost append_lost ne h = ne refl
allows-ne_lost unsent ne h = ground (arith, h)
allows-ne_lost append_due ne h = ground (arith, h)
allows-ne_lost append_done ne h = ground (arith, h)
allows-ne_lost trigger_due ne h = ground (arith, h)
allows-ne_lost trigger_done ne h = ground (arith, h)
allows-ne_lost dropped ne h = ground (arith, h)
allows-ne_lost unsendable ne h = ground (arith, h)

-- No report is ever delivered without a trigger in the table that asks for its review.
pub OutboxRun-ne_lost :
    {render : OutboxRow → String} {state : OutboxState} (id : String)
    → OutboxRun render state
    → phase id state.table ≢ append_lost
unfolding phase lookup
OutboxRun-ne_lost id opens h = cc
OutboxRun-ne_lost id (goes_on {state = state} run step) h =
    allows-ne_lost (phase id state.table) (OutboxRun-ne_lost id run)
      (rw h at (OutboxRun-refines id run step))
