-- ===== src/Tests.antt =====
-- Concrete runs: the theorems at inputs where their conditions hold. Floats are the fixed-point
-- numbers of Base/Fixed, in units of 1/10000.
pub mod Fixtures
mod Frontiers
mod Guards
mod Receipts
mod Ledgers
mod Challenges
mod Bots
mod Rounds
mod Copycats
mod Reregistrations
mod Scores
mod Audits
