-- ===== src/Hero/Shop.antt =====
-- The purchases of gameserver/DreamHero.cpp: heroes, spirit, lotions and revivals. Each operation gives
-- the hero after it and the answer that it sends.
pub mod Payment
pub mod Solvent
use dream_heroes.Base.{
  Bool, List, Option, [], false, has, if◌then◌else◌, length, none, not, replicate, set, some, true,
  ◌&&◌, ◌++◌, ◌+◌, ◌∷◌,
}
use dream_heroes.Base.Int.{leb_ℤ, ltb_ℤ, pos, to_size, ℤ, ◌+ℤ◌, ◌-ℤ◌, ◌==ℤ◌}
use dream_heroes.Base.Map.{Map, find, int_key}
use dream_heroes.Config.{
  Env, GameConfig, LotionShop, LotionUseType, ShopConfig, SpiritShop, get_lotion_shop,
  get_shop_config, get_spirit_shop, to_u32,
}
use dream_heroes.Error.{
  GameError, buy_hero_failed_not_enough_gold, buy_hero_failed_not_found_grid,
  buy_hero_failed_not_pass_required_section, buy_hero_failed_the_price_is_old,
  buy_spirit_failed_can_not_buy_more_spirit, buy_spirit_failed_not_enough_jewel,
  buy_spirit_failed_not_found_config, error_no, failed_to_buy_lotion_already_have_lotion,
  failed_to_buy_lotion_not_enough_gold, failed_to_buy_lotion_not_enough_jewel,
  failed_to_buy_not_found_this_lotion, is_no, relive_failed_not_enough_god,
}
use dream_heroes.Hero.{
  DreamHero, IntPair, set_day_buy_spirit, set_gold, set_heroes, set_jewel, set_lotions, set_spirit,
}

pub record BuyHeroAck : Type 0 where
  pub grid : ℤ
  pub current_gold : ℤ
  pub error : GameError

-- `ShopSalesPromotionManager::getCheapGold`, over its map `_cheap_gold`.
unfoldable pub get_cheap_gold : Map ℤ ℤ → ℤ → ℤ
get_cheap_gold cheap grid = elim (find grid cheap) [ none ↦ pos 0 | some gold ↦ gold ]

-- The loop over the records that looks for the required section.
passed_section : ℤ → ℤ → List IntPair → Bool
passed_section chapter section = has λ r. (r.number_1 ==ℤ chapter) && leb_ℤ section r.number_2

-- The price that the client must name.
buy_hero_price : ShopConfig → ℤ → ℤ
buy_hero_price config cheap_gold =
    let current_require_gold = config.require_gold -ℤ cheap_gold in
    if ltb_ℤ current_require_gold (pos 0) then pos 0 else current_require_gold

-- `_info.set_heroes(buy_grid, true)` after the loop that makes the list long enough. An index below
-- zero is out of range, and writes nothing here.
unlock_grid : ℤ → List Bool → List Bool
unlock_grid buy_grid heroes =
    let heroes_length = pos (length heroes) in
    let room = to_size (buy_grid +ℤ pos 1 -ℤ heroes_length) in
    let grown =
      if leb_ℤ heroes_length (buy_grid +ℤ pos 1)
      then heroes ++ replicate (room + 1) false
      else heroes in
    set grown (to_size buy_grid) true

-- The purchase itself, once the price is agreed.
buy_hero_pay : DreamHero → ℤ → ℤ → DreamHero × GameError
unfolding unlock_grid
buy_hero_pay h buy_grid current_require_gold =
    let modify_gold = h.gold -ℤ current_require_gold in
    if ltb_ℤ modify_gold (pos 0)
    then (h, buy_hero_failed_not_enough_gold)
    else (set_heroes (set_gold h modify_gold) (unlock_grid buy_grid h.heroes), error_no)

-- The tests on a hero that the shop has.
buy_hero_found : ShopConfig → ℤ → DreamHero → ℤ → ℤ → DreamHero × GameError
unfolding passed_section buy_hero_price
buy_hero_found config cheap_gold h buy_grid buy_gold =
    let chapter = config.require_chapter_id in
    let section = config.require_section_id in
    let price = buy_hero_price config cheap_gold in
    if not (chapter ==ℤ pos 0)
      && not (section ==ℤ pos 0)
      && not (passed_section chapter section h.records)
    then (h, buy_hero_failed_not_pass_required_section)
    else if not (price ==ℤ buy_gold)
    then (h, buy_hero_failed_the_price_is_old)
    else buy_hero_pay h buy_grid price

buy_hero_run : GameConfig → Map ℤ ℤ → DreamHero → ℤ → ℤ → DreamHero × GameError
buy_hero_run c cheap h buy_grid buy_gold = elim (get_shop_config c buy_grid) [
  | none ↦ (h, buy_hero_failed_not_found_grid)
  | some config ↦ buy_hero_found config (get_cheap_gold cheap buy_grid) h buy_grid buy_gold
]

pub req_buy_hero : GameConfig → Map ℤ ℤ → DreamHero → ℤ → ℤ → DreamHero × BuyHeroAck
unfolding buy_hero_run
req_buy_hero c cheap h buy_grid buy_gold =
    let (h', en) = buy_hero_run c cheap h buy_grid buy_gold in
    (h', record { grid = buy_grid; current_gold = h'.gold; error = en })

pub record BuySpiritAck : Type 0 where
  pub index : ℤ
  pub jewel : ℤ
  pub spirit : ℤ
  pub error : GameError

buy_spirit_error : GameConfig → DreamHero → Option SpiritShop → GameError
buy_spirit_error c h shop =
    if leb_ℤ c.config_day_buy_spirit h.day_buy_spirit
    then buy_spirit_failed_can_not_buy_more_spirit
    else elim shop [
      | none ↦ buy_spirit_failed_not_found_config
      | some config_info ↦
          if leb_ℤ config_info.need_jewel h.jewel
          then error_no
          else buy_spirit_failed_not_enough_jewel
    ]

buy_spirit_pay : Env → DreamHero → Option SpiritShop → DreamHero
buy_spirit_pay env h none = h
buy_spirit_pay env h (some config_info) =
    let jewel = h.jewel -ℤ config_info.need_jewel in
    let spirit = h.spirit +ℤ config_info.spirit in
    let paid =
      set_day_buy_spirit (set_spirit (set_jewel h jewel) spirit) (h.day_buy_spirit +ℤ pos 1) in
    record paid { last_buy_spirit_time = to_u32 env.server_time }

pub req_buy_spirit : GameConfig → Env → DreamHero → ℤ → DreamHero × BuySpiritAck
unfolding buy_spirit_error buy_spirit_pay
req_buy_spirit c env h index =
    let shop = get_spirit_shop c index in
    let error = buy_spirit_error c h shop in
    let h' = if is_no error then buy_spirit_pay env h shop else h in
    (h', record { index = index; jewel = h'.jewel; spirit = h'.spirit; error = error })

pub record BuyLotionAck : Type 0 where
  pub lotion_id : ℤ
  pub current_gold : ℤ
  pub current_jewel : ℤ
  pub error : GameError

-- `switch (shop_config->use_type())`
buy_lotion_pay : DreamHero → LotionUseType → ℤ → DreamHero × GameError
buy_lotion_pay h LotionUseType.jewel use_count =
    if ltb_ℤ h.jewel use_count
    then (h, failed_to_buy_lotion_not_enough_jewel)
    else (set_jewel h (h.jewel -ℤ use_count), error_no)
buy_lotion_pay h LotionUseType.gold use_count =
    if ltb_ℤ h.gold use_count
    then (h, failed_to_buy_lotion_not_enough_gold)
    else (set_gold h (h.gold -ℤ use_count), error_no)

buy_lotion_found : DreamHero → ℤ → LotionShop → DreamHero × GameError
unfolding buy_lotion_pay
buy_lotion_found h lotion_id shop_config =
    if has (λ l. l ==ℤ lotion_id) h.lotions
    then (h, failed_to_buy_lotion_already_have_lotion)
    else let (h', error) = buy_lotion_pay h shop_config.use_type shop_config.use_count in
      (if is_no error then set_lotions h' (h'.lotions ++ lotion_id ∷ []) else h', error)

buy_lotion_run : GameConfig → DreamHero → ℤ → DreamHero × GameError
unfolding buy_lotion_found
buy_lotion_run c h lotion_id =
    if leb_ℤ (pos 0) lotion_id && leb_ℤ lotion_id (pos 3)
    then elim (get_lotion_shop c lotion_id) [
      | none ↦ (h, failed_to_buy_not_found_this_lotion)
      | some shop_config ↦ buy_lotion_found h lotion_id shop_config
    ]
    else (h, failed_to_buy_not_found_this_lotion)

pub req_buy_lotion : GameConfig → DreamHero → ℤ → DreamHero × BuyLotionAck
unfolding buy_lotion_run
req_buy_lotion c h lotion_id =
    let (h', error) = buy_lotion_run c h lotion_id in
    (
      h',
      record {
        lotion_id = lotion_id;
        current_gold = h'.gold;
        current_jewel = h'.jewel;
        error = error;
      },
    )

pub record ReliveAck : Type 0 where
  pub current_gold : ℤ
  pub error : GameError

pub req_relive_req : GameConfig → DreamHero → DreamHero × ReliveAck
req_relive_req c h =
    if leb_ℤ c.relive_gold h.gold
    then (let h' = set_gold h (h.gold -ℤ c.relive_gold) in
        (h', record { current_gold = h'.gold; error = error_no }))
    else (h, record { current_gold = h.gold; error = relive_failed_not_enough_god })
