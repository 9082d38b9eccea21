-- ===== src/Bank/Idempotency.antt =====
-- At-least-once: requests that are retried and messages that are delivered again.
pub mod Requests
pub mod Outcomes
pub mod Refunds
pub mod Overlaps
