-- ===== src/Login.antt =====
-- The login server: login/account_manager.cpp, user_session.cpp, gate_manager.cpp, gate_session.cpp and
-- login_config.cpp.
pub mod Accounts
pub mod Gates
pub mod Requests
pub mod State
mod Tests
