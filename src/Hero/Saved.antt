-- ===== src/Hero/Saved.antt =====
-- Saving a hero, loading it and entering with it: gameserver/DreamHero.cpp and databaseserver/db_quest.cpp.
pub mod Columns
pub mod Login
pub mod Kept
pub mod Row
pub mod RoundTrip
