-- ===== src/Lib.antt =====
-- The task runtime of lunagentic_research_swarm, a plugin that runs research tasks as trees of LLM
-- agents on a budget of credits.
--
-- A task lives in rounds. Every change of a task is an event (runtime/events.py) that the reducer
-- (runtime/reducer.py) turns into a transition: the next state, the commands for the store, which
-- are committed first, and the effects to start then. The reducer plans delegations
-- (runtime/delegation.py), splits and shares credits and books calls (runtime/credits.py), and those
-- price usages (llm/pricing.py). Beside the rounds, a coordinator (runtime/epochs.py) collects the
-- summaries of the branches into report epochs; a report is a notification of the outbox
-- (storage/outbox.py), which workers claim, deliver to the host and try again.
--
-- Files and code (paths below lunagentic_research_swarm/):
--   Prelude, Dict       shared helpers: tests, integers, exceptions as values, dicts
--   Json                JSON values and `_contains_reasoning` (runtime/credits.py, models.py)
--   Text                texts that the code builds, `str(n)`, ids, `str.strip`
--   Models, Commands    models.py; the `StoreCommand`s of storage/sqlite.py that the reducer emits
--   Pricing             llm/pricing.py: `normalize_actual_usage`, `resolve_model`, `charge`; Sources is
--                       how a `PriceCatalog` is built; Usage, Catalog, Built and Charges are proofs
--   Credits             runtime/credits.py: Scaled is `_scaled_with_last_item_remainder`, Allocation
--                       `allocate_children`, Redistribution `redistribute_pool`, Usage
--                       `reserve_input`, `reconcile_usage` and `charge_procedure_usage`
--   Delegation          runtime/delegation.py: `plan_delegations`
--   Control             procedures/core.py: `_freeze_control_json`; Names and Sensitive are proofs
--   Events              runtime/events.py: the event classes, one constructor for each
--   Reducer             runtime/reducer.py: State and Transitions are the shared parts, Lifecycle,
--                       Reports, Continue, Branches, Calls with Agents, and Procedures with Batch the
--                       handlers, Dispatch `reduce_event`; Steps, Closed, Identity, Runs, Worth,
--                       Children, Handover, Ledger, Balances, Exchanges and Corrections are
--                       proofs
--   Scheduler           runtime/scheduler.py: what of `FairScheduler` may start, and its counters;
--                       Queues is `_take_from_priority`, Priorities `_take_runnable`, Arrivals the
--                       queueing and the removal of effects, Steps the step relation of starts and
--                       ends; Counters, Cancellation and Taken are proofs
--   Coverage            reporting.py: `build_coverage` and `freeze_report_kind`; Kinds and Counts are
--                       proofs
--   Epochs              runtime/epochs.py, `ReportCoordinator`: Opening is `open_epoch`, Synthesis the
--                       end of a synthesis task, Turns what safe points, the grace period and
--                       retired parents do, Runs the step relation; Sound, Retries and Stuck are proofs
--   Outbox              storage/sqlite.py, the statements on `maisaka_outbox`; Delivery is
--                       storage/outbox.py, `deliver_once`; Phases is the promise of the outbox, Steps
--                       and Refines its runs; the other children are proofs
--   Tests               concrete inputs
--
-- State and values. `RuntimeState` has the fields of the dataclass, and a handler is a function from
-- state and event to a transition; one that may raise returns a `Result`, and `caught` is the code's
-- `except (TypeError, ValueError)`. Credits are integers: a number of steps of one fixed size, of
-- which `steps_per_credit` make a credit. Sums and differences are then exact, which they are on
-- floats up to rounding; the rounded product of a value and a quotient, the one place where the code
-- has to correct for rounding, is a parameter (`FloatArithmetic`) of which the code relies on two
-- things only: it keeps the sign, and a factor of one changes nothing. Times are whole seconds.
-- Ids that the code draws at random are arguments, and so are `str.lower` and the digest of a price
-- catalog; the folding of a role's case is that of the ASCII letters. Every definition is total: the loops run over
-- lists, and `str` runs on a fuel above its number, which has fewer digits.
--
-- A call of the coordinator runs to its end, and what it awaits is its argument; the synthesis task
-- of an epoch ends, or crashes before or after its report is stored, at a step of its own. A run of
-- the outbox is any sequence of new rows, claims, deliveries by any worker, lost claims and
-- cancellations of reminders.
--
-- Not modelled: texts of messages, kept as what they are rendered from; the JSON of lifecycle
-- metadata; type tests on untyped input, which the types stand for; the manager, the rest of
-- the storage and the host interfaces around the reducer, the metering of summarizers, what
-- `pending_summary_messages` shows to a branch, and the closing of the scheduler.
pub mod Prelude
pub mod Dict
pub mod Credits
pub mod Pricing
pub mod Json
pub mod Text
pub mod Models
pub mod Commands
pub mod Control
pub mod Delegation
pub mod Events
pub mod Reducer
pub mod Coverage
pub mod Epochs
pub mod Outbox
pub mod Scheduler
pub mod Tests
