-- ===== src/Config.antt =====
-- gameserver/GameConfig.h and GameConfig.cpp: the configuration tables and their lookups, and what a
-- handler reads of its surroundings.
use dream_heroes.Base.{
  ℕ, ◌+◌, ◌*◌, ◌%◌, ◌^◌, Bool, ◌&&◌, Option, none, some, List, [], ◌∷◌, ltb, leb, if◌then◌else◌,
  Bytes, bytes_eq,
}
use dream_heroes.Base.Int.{ℤ}
use dream_heroes.Base.Map.{Map, find, int_key}

pub record GlobalConfig : Type 0 where
  pub config_gold : ℤ
  pub hero_unlock_count : ℤ
  pub day_refresh_time : ℤ
  pub day_free_task_count : ℤ
  pub day_task_advertisement_task_cd : ℤ
  pub hero_max_tasks_count : ℤ
  pub refresh_task_gold : ℤ
  pub relive_gold : ℤ
  pub config_max_spirit : ℤ
  pub config_jewel : ℤ
  pub config_recover_spirit_minute : ℤ
  pub config_recover_spirit : ℤ
  pub config_enter_game_use_spirit : ℤ
  pub config_day_buy_spirit : ℤ
  pub config_weixin_gold : ℤ
  pub daily_game_record_config : List ℤ
  pub daily_game_reset_jewel_config : List ℤ
  pub config_weixin_cd_key : Bytes

pub record TaskConfig : Type 0 where
  pub task_id : ℤ
  pub require_unlock_chapter : ℤ
  pub require_unlock_section : ℤ
  pub require_unlock_complete_task_count : ℤ
  pub gift_gold : ℤ

pub record ShopConfig : Type 0 where
  pub require_gold : ℤ
  pub require_chapter_id : ℤ
  pub require_section_id : ℤ

pub record ChapterConfig : Type 0 where
  pub required_chapter_id : ℤ
  pub required_section_id : ℤ
  pub required_task_complete_count : ℤ
  pub require_gold : ℤ

pub record SpiritShop : Type 0 where
  pub spirit : ℤ
  pub need_jewel : ℤ

pub data LotionUseType : Type 0 where
  gold jewel : LotionUseType

pub record LotionShop : Type 0 where
  pub use_type : LotionUseType
  pub use_count : ℤ

pub record GoldShop : Type 0 where
  pub appstore_product_id : Bytes
  pub gold : ℤ
  pub jewel : ℤ

pub data LotteryBox : Type 0 where
  lottery_jewel lottery_gold lottery_lotion : LotteryBox

pub record LotteryDrawBox : Type 0 where
  pub lottery_type : LotteryBox
  pub sub_index : ℤ
  pub base_count : ℤ
  pub random_count : ℤ
  pub rating : ℤ

pub record DailyGamePrize : Type 0 where
  pub begin_rank : ℤ
  pub end_rank : ℤ
  pub prize_gold : ℤ

pub record GameConfig : Type 0 where
  pub global : GlobalConfig
  pub open global use *
  pub tasks : Map ℤ TaskConfig
  pub shop_heroes : Map ℤ ShopConfig
  pub chapter_config_infos : Map ℤ ChapterConfig
  pub gold_shop_config_infos : Map ℤ (Map ℤ GoldShop)
  pub spirit_shop : Map ℤ SpiritShop
  pub lotion_shop_configs : Map ℤ LotionShop
  pub lottery_draw_configs : List LotteryDrawBox
  pub daily_game_prize_configs : List DailyGamePrize
  pub can_concern_weixin : Bool

pub get_shop_config : GameConfig → ℤ → Option ShopConfig
get_shop_config c grid_id = find grid_id c.shop_heroes

unfoldable pub get_map_task : GameConfig → ℤ → Option TaskConfig
get_map_task c id = find id c.tasks

pub get_chapter_config_info : GameConfig → ℤ → Option ChapterConfig
get_chapter_config_info c id = find id c.chapter_config_infos

unfoldable pub get_spirit_shop : GameConfig → ℤ → Option SpiritShop
get_spirit_shop c index = find index c.spirit_shop

pub get_lotion_shop : GameConfig → ℤ → Option LotionShop
get_lotion_shop c index = find index c.lotion_shop_configs

-- The loop over the products of one channel: the first with this product id.
find_product : Bytes → Map ℤ GoldShop → Option GoldShop
find_product product_id [] = none
find_product product_id ((id, g) ∷ m) =
    if bytes_eq g.appstore_product_id product_id then some g else find_product product_id m

-- `getGoldShopConfigInfo(int channel, const char* appstore_product_id)`
unfoldable pub get_gold_shop_config_info : GameConfig → ℤ → Bytes → Option GoldShop
unfolding find_product
get_gold_shop_config_info c channel product_id = elim (find channel c.gold_shop_config_infos) [
  | none ↦ none
  | some map_configs ↦ find_product product_id map_configs
]

-- What a handler reads of the process and of the libraries: the clock `g_server_time`, the time
-- `mktime` gives for today's refresh hour, the values of `rand()` in the order of its calls, and the
-- `int` value of `(float) amount * ((float) ratting / 100 + 1)`.
pub record Env : Type 0 where
  pub server_time : ℕ
  pub today_refresh_time : ℕ
  pub rand : ℕ → ℕ
  pub scaled : ℤ → ℤ → ℤ

-- An assignment to a `u32`.
abbrev pub to_u32 : ℕ → ℕ
to_u32 n = n % 2 ^ 32

-- `GameConfig::isInToday`
unfoldable pub is_in_today : Env → ℕ → Bool
is_in_today env time =
    let tomorrow_refresh_time = env.today_refresh_time + 24 * 60 * 60 in
    ltb time tomorrow_refresh_time && leb env.today_refresh_time time
