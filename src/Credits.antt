-- ===== src/Credits.antt =====
-- lunagentic_research_swarm/runtime/credits.py: the credit arithmetic and the ledger commands.
-- Credits are signed multiples of the smallest step of the number format, so sums and
-- differences are exact; what a product or a quotient rounds to is left open (`FloatArithmetic`).
pub mod Scaled
pub mod Allocation
pub mod Redistribution
pub mod Usage
