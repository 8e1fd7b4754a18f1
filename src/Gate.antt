-- ===== src/Gate.antt =====
-- The gate server: gateserver/user_manager.cpp, user_session.cpp and game_manager.cpp.
pub mod Games
pub mod Tables
pub mod Users
