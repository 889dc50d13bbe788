-- ===== src/Competitions.antt =====
-- The competitions of a club: src/competitions/lib.
pub mod Score
pub mod Bracket
pub mod Standings
pub mod Tests
pub mod Waves
