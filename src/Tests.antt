-- ===== src/Tests.antt =====
-- Sample data, runs of the code at fixed inputs, and the theorems at inputs that meet their
-- hypotheses.
pub mod Samples
mod Recording
mod Ledger
mod Bonus
mod Event
mod Members
mod Security
mod Displays
mod Archive
mod Household
mod Passkeys
