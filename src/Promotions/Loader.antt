-- ===== src/Promotions/Loader.antt =====
-- The rows of the table `time_shop_sales_promotion`, which `GameConfig::Load` of gameserver/GameConfig.cpp reads,
-- and `getOpenServerPassedDay`.
use dream_heroes.Base.{
  Bytes, List, Option, [], if◌then◌else◌, map, none, some, ℕ, ◌*◌, ◌+◌, ◌/◌, ◌∷◌,
}
use dream_heroes.Base.Int.{negsuc, pos, ℤ, ◌-ℤ◌, ◌==ℤ◌}
use dream_heroes.Base.Map.{Map, assign, int_key}
use dream_heroes.Promotions.Types.{
  EventTime, ShopPromotion, TimeShopSalesPromotionConfig, hero_promotion, open_hide_hero_promotion,
  recharge_ratting_promotion, time_normal, time_open_server_offset_time, time_week,
}
use dream_heroes.Text.Number.{atoi}
use dream_heroes.Text.Split.{split_string_a}

-- A row, with its columns as the database hands them out.
pub record PromotionRow : Type 0 where
  pub sales_promotion_id : ℤ
  pub promotion_type : ℤ
  pub name : Bytes
  pub time_describe : Bytes
  pub describe : Bytes
  pub grid_ids : Bytes
  pub recharge_ratting : ℤ
  pub recharge_type : ℤ
  pub open_hide_grides : Bytes
  pub time_type : ℤ
  pub unix_show_time : ℤ
  pub unix_begin_time : ℤ
  pub unix_end_time : ℤ
  pub show_time_week : ℤ
  pub begin_time_week : ℤ
  pub end_time_week : ℤ
  pub offset_show_time : ℤ
  pub offset_begin_time : ℤ
  pub offset_end_time : ℤ

-- A piece of `grid_ids` that has two parts.
read_cheap_hero : List Bytes → Map ℤ ℤ → Map ℤ ℤ
read_cheap_hero [] m = m
read_cheap_hero (grid ∷ []) m = m
read_cheap_hero (grid ∷ gold ∷ []) m = assign (atoi grid) (atoi gold) m
read_cheap_hero (grid ∷ gold ∷ x ∷ xs) m = m

read_cheap_heroes : List Bytes → Map ℤ ℤ → Map ℤ ℤ
unfolding read_cheap_hero
read_cheap_heroes [] m = m
read_cheap_heroes (piece ∷ pieces) m =
    read_cheap_heroes pieces (read_cheap_hero (split_string_a piece 44) m)

-- The `switch` over the type of promotion. It leaves a null pointer for a number that is no type, which the first
-- use of the promotion would follow: no promotion here.
pub read_promotion : PromotionRow → Option ShopPromotion
unfolding read_cheap_heroes
read_promotion row =
    if row.promotion_type ==ℤ pos 0
    then some (hero_promotion (read_cheap_heroes (split_string_a row.grid_ids 59) []))
    else if row.promotion_type ==ℤ pos 1
    then some (recharge_ratting_promotion row.recharge_ratting row.recharge_type)
    else if row.promotion_type ==ℤ pos 2
    then some (open_hide_hero_promotion (map atoi (split_string_a row.open_hide_grides 44)))
    else none

-- The `switch` over the type of times, with the same null pointer.
pub read_time : PromotionRow → Option EventTime
read_time row =
    if row.time_type ==ℤ pos 0
    then some (record {
      type = time_normal;
      show_time = row.unix_show_time;
      begin_time = row.unix_begin_time;
      end_time = row.unix_end_time;
    })
    else if row.time_type ==ℤ pos 1
    then some (record {
      type = time_week;
      show_time = row.show_time_week;
      begin_time = row.begin_time_week;
      end_time = row.end_time_week;
    })
    else if row.time_type ==ℤ pos 2
    then some (record {
      type = time_open_server_offset_time;
      show_time = row.offset_show_time;
      begin_time = row.offset_begin_time;
      end_time = row.offset_end_time;
    })
    else none

join_config :
    PromotionRow → Option ShopPromotion → Option EventTime → Option TimeShopSalesPromotionConfig
join_config row none time = none
join_config row (some promotion) none = none
join_config row (some promotion) (some time) = some (record {
  id = row.sales_promotion_id;
  name = row.name;
  time_describe = row.time_describe;
  describe = row.describe;
  promotion = promotion;
  time = time;
})

-- One row of the loop.
pub read_promotion_config : PromotionRow → Option TimeShopSalesPromotionConfig
unfolding join_config
read_promotion_config row = join_config row (read_promotion row) (read_time row)

-- The quotient of `int`s, which is cut towards zero, by a number of seconds.
cut_div : ℤ → ℕ → ℤ
cut_div (pos n) k = pos (n / k)
cut_div (negsuc n) k = pos 0 -ℤ pos ((n + 1) / k)

-- `getOpenServerPassedDay`, from the midnight that `mktime` gives for the day of the opening.
pub get_open_server_passed_day : ℤ → ℤ → ℤ
unfolding cut_div
get_open_server_passed_day today_refresh_time cur_time =
    cut_div (cur_time -ℤ today_refresh_time) (24 * 60 * 60)
