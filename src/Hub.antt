-- ===== src/Hub.antt =====
-- The Hub (hub/src): the directory of banks, their reserves and the settlements between them.
pub mod Domain
pub mod Database
pub mod Ledger
pub mod Banks
pub mod Settlements
pub mod Step
pub mod Relay
pub mod Invariant
pub mod Redelivery
pub mod Races
pub mod Consumers
pub mod Http
mod Tests
