-- ===== src/Hub/Invariant.antt =====
-- What every interleaving of committed transactions keeps at the Hub, and what the position of each
-- bank is while replies do not race.
pub mod Balance
pub mod History
pub mod Positions
