-- ===== src/Sessions.antt =====
-- The players on a game server: gameserver/gate_manager.cpp, gameserver/gate_session.cpp, the session of
-- gameserver/session.cpp, and the map of live heroes of gameserver/DreamHeroManager.cpp with the clock of
-- gameserver/DreamHero.cpp that destroys them.
pub mod Commands
pub mod Live
mod Tests
