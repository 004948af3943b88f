-- ===== src/Reducer.antt =====
-- lunagentic_research_swarm/runtime/reducer.py: one event, one state, one transition.
pub mod State
pub mod Transitions
pub mod Lifecycle
pub mod Reports
pub mod Continue
pub mod Branches
pub mod Calls
pub mod Agents
pub mod Procedures
pub mod Batch
pub mod Dispatch
pub mod Steps
pub mod Closed
pub mod Worth
pub mod Children
pub mod Handover
pub mod Identity
pub mod Ledger
pub mod Balances
pub mod Exchanges
pub mod Corrections
pub mod Runs
