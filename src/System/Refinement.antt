-- ===== src/System/Refinement.antt =====
-- The methods of both services take steps of the whole system, each through the messages that the
-- other one sends.
pub mod Outcomes
pub mod Requests
