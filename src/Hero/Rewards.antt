-- ===== src/Hero/Rewards.antt =====
-- Gifts and adjustments of gameserver/DreamHero.cpp: the WeiXin gift, the prize of the daily game, the
-- recovery of spirit, the gold command, the choice of the hero, and the reset to the configuration.
pub mod Laws
pub mod Solvent
use dream_heroes.Base.{
  Bool, Bytes, List, Option, [], bytes_eq, false, get_elem?, if◌then◌else◌, length, none, not,
  replicate, some, true, ◌∷◌,
}
use dream_heroes.Base.Int.{leb_ℤ, ltb_ℤ, negsuc, pos, to_size, ℤ, ◌+ℤ◌, ◌==ℤ◌}
use dream_heroes.Base.Map.{assign, erase, int_key, pair_key}
use dream_heroes.Config.{Env, GameConfig, to_u32}
use dream_heroes.Error.{
  GameError, error_no, failed_to_concern_wei_xin_error_can_not_concern_wei_xin,
  failed_to_concern_wei_xin_error_cdkey, failed_to_concern_wei_xin_have_been_concerned_wei_xin,
  failed_to_received_daily_game_prize_no_prize, is_no, modify_current_failed_the_character_is_lock,
}
use dream_heroes.Hero.{
  DreamHero, HeroData, IntBoolPair, set_concern_weixin, set_daily_game_gold, set_gold, set_spirit,
}

pub record ConcernWeiXinAck : Type 0 where
  pub gold : ℤ
  pub current_gold : ℤ
  pub error : GameError

concern_error : GameConfig → DreamHero → Bytes → GameError
concern_error c h cd_key =
    if not c.can_concern_weixin
    then failed_to_concern_wei_xin_error_can_not_concern_wei_xin
    else if h.concern_weixin
    then failed_to_concern_wei_xin_have_been_concerned_wei_xin
    else if bytes_eq c.config_weixin_cd_key cd_key
    then error_no
    else failed_to_concern_wei_xin_error_cdkey

unfoldable pub req_concern_wei_xin : GameConfig → DreamHero → Bytes → DreamHero × ConcernWeiXinAck
unfolding concern_error
req_concern_wei_xin c h cd_key =
    let error = concern_error c h cd_key in
    let add_gold = if is_no error then c.config_weixin_gold else pos 0 in
    let h' = if is_no error then set_gold (set_concern_weixin h true) (h.gold +ℤ add_gold) else h in
    (h', record { gold = add_gold; current_gold = h'.gold; error = error })

pub record ReceivePrizeAck : Type 0 where
  pub current_gold : ℤ
  pub error : GameError

pub req_receive_daily_game_prize : DreamHero → DreamHero × ReceivePrizeAck
req_receive_daily_game_prize h =
    if h.daily_game_gold ==ℤ pos 0
    then (h, record { current_gold = h.gold; error = failed_to_received_daily_game_prize_no_prize })
    else (let h' = set_daily_game_gold (set_gold h (h.gold +ℤ h.daily_game_gold)) (pos 0) in
        (h', record { current_gold = h'.gold; error = error_no }))

-- The spirit after one recovery; the answer is the new spirit.
recovered : GameConfig → ℤ → ℤ
recovered c spirit =
    if ltb_ℤ spirit c.config_max_spirit
    then (let raised = spirit +ℤ c.config_recover_spirit in
        if leb_ℤ c.config_max_spirit raised then c.config_max_spirit else raised)
    else spirit

pub recover_spirit : GameConfig → Env → DreamHero → DreamHero × ℤ
unfolding recovered
recover_spirit c env h =
    let spirit = recovered c h.spirit in
    (record (set_spirit h spirit) { last_recover_spirit_time = to_u32 env.server_time }, spirit)

-- The gold never falls below zero; the answer is the new gold.
unfoldable pub req_modify_gold : DreamHero → ℤ → DreamHero × ℤ
req_modify_gold h gold =
    let current_gold = h.gold +ℤ gold in
    let clamped = if ltb_ℤ current_gold (pos 0) then pos 0 else current_gold in
    (set_gold h clamped, clamped)

pub record ModifyCurrentHeroAck : Type 0 where
  pub current_grid : ℤ
  pub error : GameError

-- The read `_info.heroes(current_grid_id)`: `none` is a read outside the list.
hero_at : List Bool → ℤ → Option Bool
hero_at heroes (pos i) = get_elem? heroes i
hero_at heroes (negsuc i) = none

-- `none` is the undefined read of a negative grid, which the test against the length lets through.
pub req_modify_current_hero : DreamHero → ℤ → Option (DreamHero × ModifyCurrentHeroAck)
unfolding hero_at
req_modify_current_hero h grid_id =
    let locked : ModifyCurrentHeroAck = record {
      current_grid = h.current_hero;
      error = modify_current_failed_the_character_is_lock;
    } in
    if ltb_ℤ grid_id (pos (length h.heroes))
    then elim (hero_at h.heroes grid_id) [
      | none ↦ none
      | some unlocked ↦
          if unlocked
          then some (
            record h { info = record h.info { current_hero = grid_id } },
            record { current_grid = grid_id; error = error_no },
          )
          else some (h, locked)
    ]
    else some (h, locked)

-- The kills in a section are forgotten.
unfoldable pub req_reset_map : DreamHero → ℤ → ℤ → DreamHero
req_reset_map h chapter_id section_id =
    let key : ℤ × ℤ = (chapter_id, section_id) in
    record h { special_kills = erase key h.special_kills }

pub req_modify_tutorial_flag : DreamHero → ℤ → DreamHero
req_modify_tutorial_flag h flag = record h { info = record h.info { new_tutorial = flag } }

unfoldable pub req_remove_all_special_creature_list : DreamHero → DreamHero
req_remove_all_special_creature_list h = record h { special_creatures = [] }

unfoldable pub req_set_special_creature_list : DreamHero → ℤ → ℤ → DreamHero
req_set_special_creature_list h creature_id status = record h {
  special_creatures = assign creature_id status h.special_creatures;
}

pub req_modify_notify_grid_state : DreamHero → List IntBoolPair → DreamHero
req_modify_notify_grid_state h states = record h {
  info = record h.info { grid_notify_state = states };
}

fresh_info : GameConfig → HeroData → Bytes → HeroData
fresh_info c info name = record {
  name = name;
  gold = c.config_gold;
  records =
      record { number_1 = pos 1; number_2 = pos 1 }
      ∷ record { number_1 = pos 0; number_2 = pos 0 }
      ∷ [];
  heroes = replicate (to_size c.hero_unlock_count) true;
  tasks = [];
  current_hero = pos 0;
  complete_task_count = pos 0;
  new_tutorial = pos 0;
  jewel = c.config_jewel;
  spirit = c.config_max_spirit;
  day_buy_spirit = info.day_buy_spirit;
  lotions = [];
  daily_game_progress = pos 0;
  daily_game_gold = pos 0;
  daily_game_score = pos 0;
  daily_game_hp_pct = pos 100;
  daily_game_record_progress = pos 0;
  daily_reset_game_count = pos 0;
  daily_top_grogress = pos 0;
  daily_game_anger = pos 0;
  concern_weixin = false;
  grid_notify_state = [];
}

-- `LoadFromConfig`; `name` is what `generateName` of the manager returns. The day's count of bought
-- spirit, the deals and the account stay.
unfoldable pub load_from_config : GameConfig → DreamHero → Bytes → ℤ → DreamHero
unfolding fresh_info
load_from_config c h name channel = record {
  info = fresh_info c h.info name;
  account = h.account;
  special_kills = [];
  special_creatures = [];
  current_chapter = pos 0;
  current_section = pos 0;
  current_task_count = pos 0;
  last_task_advertisement_time = 0;
  deals_wait_to_pay = h.deals_wait_to_pay;
  gm_level = pos 1;
  ping_count = pos 0;
  last_recover_spirit_time = 0;
  last_buy_spirit_time = 0;
  last_day_lottery_time = 0;
  daily_game_time = 0;
  daily_game_prize_time = 0;
  last_daily_reset_game_time = 0;
  channel = channel;
}
