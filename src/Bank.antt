-- ===== src/Bank.antt =====
-- Bank A (src/): its parts, in the order in which they build on one another.
pub mod Domain
pub mod Database
pub mod Ledger
pub mod Accounts
pub mod Posting
pub mod Transfers
pub mod Interbank
pub mod Reply
pub mod Reconciliation
pub mod Step
pub mod Relay
pub mod Invariant
pub mod Idempotency
pub mod Http
pub mod Tests
