-- ===== src/Tests.antt =====
-- Concrete inputs of the program, and the results of the development at them.
pub mod Data
pub mod Controls
pub mod Credits
pub mod Prices
pub mod Usages
pub mod Events
pub mod Rounds
pub mod Turns
pub mod Exchanges
pub mod Queues
pub mod Notices
pub mod Reports
