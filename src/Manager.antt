-- ===== src/Manager.antt =====
-- gameserver/DreamHeroManager.cpp: the names and the orders that the manager of the heroes hands out, and the
-- row of the table `heroes_status`.
pub mod Names
pub mod Prizes
pub mod Status
mod Tests
