-- ===== src/Promotions/Effects.antt =====
-- What a promotion of gameserver/ShopSalesPromotionManager.cpp does to the prices and to the ratings, when it
-- begins and when it ends.
pub mod Sums
use dream_heroes.Base.{Bool, List, [], false, if◌then◌else◌, none, some, true, ℕ, ◌==◌, ◌∷◌}
use dream_heroes.Base.Int.{pos, ℤ, ◌+ℤ◌, ◌-ℤ◌}
use dream_heroes.Base.Map.{Map, assign, find, int_key}
use dream_heroes.Hero.Shop.{get_cheap_gold}
use dream_heroes.Promotions.Types.{
  ShopPromotion, ShopState, hero_promotion, open_hide_hero_promotion, promotion_type,
  recharge_ratting_promotion,
}

-- `modifyCheapGold`
modify_cheap_gold : ℤ → ℤ → ShopState → ShopState
modify_cheap_gold grid gold s = record s {
  cheap_gold = assign grid (get_cheap_gold s.cheap_gold grid +ℤ gold) s.cheap_gold;
}

modify_recharge_ratting : ℤ → ShopState → ShopState
modify_recharge_ratting ratting s = record s { recharge_ratting = s.recharge_ratting +ℤ ratting }

modify_gold_recharge_ratting : ℤ → ShopState → ShopState
modify_gold_recharge_ratting ratting s = record s {
  recharge_gold_ratting = s.recharge_gold_ratting +ℤ ratting;
}

modify_jewel_recharge_ratting : ℤ → ShopState → ShopState
modify_jewel_recharge_ratting ratting s = record s {
  recharge_jewel_ratting = s.recharge_jewel_ratting +ℤ ratting;
}

pub get_gold_recharge_ratting : ShopState → ℤ
get_gold_recharge_ratting s = s.recharge_ratting +ℤ s.recharge_gold_ratting

pub get_jewel_recharge_ratting : ShopState → ℤ
get_jewel_recharge_ratting s = s.recharge_ratting +ℤ s.recharge_jewel_ratting

-- `GameConfig::setHeroShopConfig`, on the flag of a hero that is sold.
set_hero_shop_config : ℤ → Bool → ShopState → ShopState
set_hero_shop_config grid_id is_open s = elim (find grid_id s.shop_open) [
  | none ↦ s
  | some old ↦ record s { shop_open = assign grid_id is_open s.shop_open }
]

signed : Bool → ℤ → ℤ
signed true n = n
signed false n = pos 0 -ℤ n

-- The loop over `cheap_hero_`.
cheap_heroes : Bool → Map ℤ ℤ → ShopState → ShopState
unfolding modify_cheap_gold
cheap_heroes b [] s = s
cheap_heroes b ((grid, gold) ∷ m) s = cheap_heroes b m (modify_cheap_gold grid (signed b gold) s)

-- The loop over `hide_grid_ids_`.
open_heroes : Bool → List ℤ → ShopState → ShopState
unfolding set_hero_shop_config
open_heroes b [] s = s
open_heroes b (grid_id ∷ grids) s = open_heroes b grids (set_hero_shop_config grid_id b s)

-- The inner `switch`, with the numbers of `RechargeRattingPromotion::ALL`, `GOLD` and `JEWEL`.
modify_rattings : ℕ → ℤ → ShopState → ShopState
unfolding modify_recharge_ratting modify_gold_recharge_ratting modify_jewel_recharge_ratting
modify_rattings type modify s =
    if type == 0
    then modify_recharge_ratting modify s
    else if type == 1
    then modify_gold_recharge_ratting modify s
    else if type == 2
    then modify_jewel_recharge_ratting modify s
    else s

-- The `switch` of `excute(bool b)`. The inner one reads `PromotionType_`, not `rechagre_type`.
unfoldable pub take_effect : Bool → ShopPromotion → ShopState → ShopState
unfolding signed cheap_heroes open_heroes modify_rattings promotion_type
take_effect b (hero_promotion cheap_hero) s = cheap_heroes b cheap_hero s
take_effect b (recharge_ratting_promotion ratting recharge_type) s =
    modify_rattings (promotion_type (recharge_ratting_promotion ratting recharge_type))
      (signed b ratting) s
take_effect b (open_hide_hero_promotion hide_grid_ids) s = open_heroes b hide_grid_ids s
