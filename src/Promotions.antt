-- ===== src/Promotions.antt =====
-- gameserver/ShopSalesPromotionManager.cpp: the promotions of the shop.
pub mod Board
pub mod Effects
pub mod Loader
pub mod Passing
pub mod Types
mod Tests
