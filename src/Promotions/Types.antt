-- ===== src/Promotions/Types.antt =====
-- The shop's promotions as gameserver/GameConfig.h declares them and as the loader of gameserver/GameConfig.cpp
-- reads them, and the state that gameserver/ShopSalesPromotionManager.h keeps.
use dream_heroes.Base.{Bool, Bytes, List, ℕ}
use dream_heroes.Base.Int.{ℤ}
use dream_heroes.Base.Map.{Map}

-- `BaseShopPromotion` with its three subclasses.
pub data ShopPromotion : Type 0 where
  hero_promotion : Map ℤ ℤ → ShopPromotion
  recharge_ratting_promotion : ℤ → ℤ → ShopPromotion
  open_hide_hero_promotion : List ℤ → ShopPromotion

-- The field `PromotionType_`, as the constructors of the subclasses set it.
unfoldable pub promotion_type : ShopPromotion → ℕ
promotion_type (hero_promotion cheap_hero) = 0
promotion_type (recharge_ratting_promotion recharge_ratting recharge_type) = 1
promotion_type (open_hide_hero_promotion hide_grid_ids) = 2

pub data TimeEventType : Type 0 where
  time_normal time_week time_open_server_offset_time : TimeEventType

-- `EventTimeBase` with its subclasses, which have the same three fields.
pub record EventTime : Type 0 where
  pub type : TimeEventType
  pub show_time : ℤ
  pub begin_time : ℤ
  pub end_time : ℤ

pub record TimeShopSalesPromotionConfig : Type 0 where
  pub id : ℤ
  pub name : Bytes
  pub time_describe : Bytes
  pub describe : Bytes
  pub promotion : ShopPromotion
  pub time : EventTime

pub data ShopSalesPromotionType : Type 0 where
  wait apply_ excute_ destroy : ShopSalesPromotionType

-- What a timer calls.
pub data PromotionCall : Type 0 where
  call_apply call_excute call_exit : PromotionCall

-- An event of a promotion in `gEventMgr` that is to come, with its delay in seconds: the call to `exit` is of
-- the type EVENT_SHOP_SALES_PROMOTION_EXIT, the other calls are of the type EVENT_SHOP_SALES_PROMOTION_APPLY.
pub record PromotionTimer : Type 0 where
  pub call : PromotionCall
  pub delay : ℤ

pub record TimeShopPromotion : Type 0 where
  pub config : TimeShopSalesPromotionConfig
  pub type : ShopSalesPromotionType
  pub timers : List PromotionTimer

-- What the promotions change: the fields of the manager, and the flags `open` of the heroes that
-- `gGameConfig` sells.
pub record ShopState : Type 0 where
  pub cheap_gold : Map ℤ ℤ
  pub recharge_ratting : ℤ
  pub recharge_gold_ratting : ℤ
  pub recharge_jewel_ratting : ℤ
  pub shop_open : Map ℤ Bool

-- The clock that the handlers read: `g_server_time`, the day of the week that `localtime` gives for it, and
-- `getOpenServerPassedDay` of it.
pub record Clock : Type 0 where
  pub server_time : ℤ
  pub week_time : ℤ
  pub passed_day : ℤ
