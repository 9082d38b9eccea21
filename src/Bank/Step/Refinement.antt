-- ===== src/Bank/Step/Refinement.antt =====
-- Every method of the services of Bank A takes steps of the abstract ledger and no others, whatever
-- other requests commit in between.
pub mod Accounts
pub mod Transfers
pub mod Interbank
pub mod Reply
