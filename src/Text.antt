-- ===== src/Text.antt =====
-- Text as the server writes and reads it: `%d`, `atoi`, and `SplitStringA` of common/utilities.cpp.
pub mod Fields
pub mod Number
pub mod Split
