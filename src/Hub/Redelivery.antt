-- ===== src/Hub/Redelivery.antt =====
-- The broker delivers at least once: what a second delivery does at the Hub.
pub mod Request
pub mod Reply
