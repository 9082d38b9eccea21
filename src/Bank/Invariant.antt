-- ===== src/Bank/Invariant.antt =====
-- What every history of committed transactions of Bank A preserves.
pub mod Journal
pub mod Funds
pub mod Unique
pub mod History
pub mod Saga
pub mod Announced
pub mod Suspense
