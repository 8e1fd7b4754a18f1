-- ===== src/Tests.antt =====
-- Concrete data: a small configuration, a clock and a hero, at which the theorems are applied.
mod Daily
mod Play
mod Ranks
mod Saved
mod Shop
mod Tasks
use dream_heroes.Base.{[], false, true, ◌+◌, ◌∷◌}
use dream_heroes.Base.Int.{pos, pos_part, ℤ, ◌-ℤ◌}
use dream_heroes.Config.{
  Env, GameConfig, GlobalConfig, LotionUseType, TaskConfig, lottery_gold, lottery_lotion,
}
use dream_heroes.Hero.{
  DealStatusType, DealWaitToPay, DreamHero, HeroData, complete, monster, wait_to_pay,
}
use dream_heroes.Hero.Exit.{ExitGameReq}
use dream_heroes.Hero.Saved.Row.{Outside}
use dream_heroes.Rank.{RankManager}
use dream_heroes.Text.Number.{atoi}

abbrev pub sample_global : GlobalConfig
sample_global = record {
  config_gold = pos 100;
  hero_unlock_count = pos 2;
  day_refresh_time = pos 0;
  day_free_task_count = pos 3;
  day_task_advertisement_task_cd = pos 60;
  hero_max_tasks_count = pos 3;
  refresh_task_gold = pos 20;
  relive_gold = pos 5;
  config_max_spirit = pos 30;
  config_jewel = pos 10;
  config_recover_spirit_minute = pos 5;
  config_recover_spirit = pos 2;
  config_enter_game_use_spirit = pos 4;
  config_day_buy_spirit = pos 2;
  config_weixin_gold = pos 50;
  daily_game_record_config = pos 5 ∷ [];
  daily_game_reset_jewel_config = pos 3 ∷ pos 6 ∷ [];
  config_weixin_cd_key = 119 ∷ 120 ∷ [];
}

abbrev sample_task : ℤ → TaskConfig
sample_task id = record {
  task_id = id;
  require_unlock_chapter = pos 1;
  require_unlock_section = pos 1;
  require_unlock_complete_task_count = pos 0;
  gift_gold = pos 15;
}

abbrev pub sample_config : GameConfig
sample_config = record {
  global = sample_global;
  tasks = (pos 7, sample_task (pos 7)) ∷ (pos 8, sample_task (pos 8)) ∷ [];
  shop_heroes =
      (
        pos 1,
        record { require_gold = pos 80; require_chapter_id = pos 1; require_section_id = pos 1 },
      )
      ∷ [];
  chapter_config_infos =
      (
        pos 2,
        record {
          required_chapter_id = pos 1;
          required_section_id = pos 1;
          required_task_complete_count = pos 1;
          require_gold = pos 30;
        },
      )
      ∷ [];
  gold_shop_config_infos =
      (pos 1, (pos 1, record { appstore_product_id = 97 ∷ []; gold = pos 500; jewel = pos 5 }) ∷ [])
      ∷ [];
  spirit_shop = (pos 0, record { spirit = pos 10; need_jewel = pos 4 }) ∷ [];
  lotion_shop_configs = (pos 2, record { use_type = LotionUseType.gold; use_count = pos 25 }) ∷ [];
  lottery_draw_configs =
      record {
        lottery_type = lottery_gold;
        sub_index = pos 0;
        base_count = pos 10;
        random_count = pos 5;
        rating = pos 60;
      }
      ∷ record {
        lottery_type = lottery_lotion;
        sub_index = pos 3;
        base_count = pos 0;
        random_count = pos 0;
        rating = pos 40;
      }
      ∷ [];
  daily_game_prize_configs =
      record { begin_rank = pos 1; end_rank = pos 10; prize_gold = pos 200 } ∷ [];
  can_concern_weixin = true;
}

-- The refresh hour of the day is at 100000, and the clock shows three hours later.
abbrev pub sample_env : Env
sample_env = record {
  server_time = 110800;
  today_refresh_time = 100000;
  rand = λ i. 71 + i;
  scaled = λ a r. a;
}

abbrev sample_info : HeroData
sample_info = record {
  name = 104 ∷ [];
  gold = pos 100;
  records = record { number_1 = pos 1; number_2 = pos 1 } ∷ [];
  heroes = true ∷ [];
  tasks = record { task_id = pos 7; argument_1 = pos 0; use_time = pos 0 } ∷ [];
  current_hero = pos 0;
  complete_task_count = pos 1;
  new_tutorial = pos 0;
  jewel = pos 10;
  spirit = pos 20;
  day_buy_spirit = pos 0;
  lotions = pos 1 ∷ [];
  daily_game_progress = pos 2;
  daily_game_gold = pos 40;
  daily_game_score = pos 0;
  daily_game_hp_pct = pos 60;
  daily_game_record_progress = pos 0;
  daily_reset_game_count = pos 0;
  daily_top_grogress = pos 2;
  daily_game_anger = pos 0;
  concern_weixin = false;
  grid_notify_state = [];
}

abbrev pub sample_deal : DealStatusType → DealWaitToPay
sample_deal type = record {
  key_code = 97 ∷ [];
  status = pos 0;
  price = pos 6;
  order_id = pos 900;
  receipt = [];
  deal_type = type;
}

abbrev pub sample_hero : DreamHero
sample_hero = record {
  info = sample_info;
  account = 42;
  special_kills = [];
  special_creatures = [];
  current_chapter = pos 1;
  current_section = pos 2;
  current_task_count = pos 0;
  last_task_advertisement_time = 0;
  deals_wait_to_pay = (pos 900, sample_deal wait_to_pay) ∷ (pos 901, sample_deal complete) ∷ [];
  gm_level = pos 1;
  ping_count = pos 0;
  last_recover_spirit_time = 0;
  last_buy_spirit_time = 0;
  last_day_lottery_time = 0;
  daily_game_time = 100500;
  daily_game_prize_time = 0;
  last_daily_reset_game_time = 0;
  channel = pos 1;
}

-- A report of section 2 of chapter 1 with its task done and the hero's lotion used.
abbrev pub sample_exit : ExitGameReq
sample_exit = record {
  chapter_id = pos 1;
  section_id = pos 2;
  task_infos = [];
  gold = pos 33;
  success = true;
  complete_tasks = pos 7 ∷ [];
  special_kill_list =
      record { sub_type = monster; id = pos 5 } ∷ record { sub_type = monster; id = pos 5 } ∷ [];
  special_creatures = [];
  use_lotions = pos 1 ∷ [];
}

abbrev pub sample_ranks : RankManager
sample_ranks = record {
  heroes_daily_rank =
      record { name = 120 ∷ []; acc = 7; score = pos 50; rank = pos 1; time = 100600 }
      ∷ record { name = 121 ∷ []; acc = 8; score = pos 20; rank = pos 2; time = 100700 }
      ∷ [];
  heroes_rank = (7, pos 1) ∷ (8, pos 2) ∷ [];
  daily_max_rank_size = pos 100;
  min_daily_score = pos 20;
  daily_game_begin_time = 100500;
  max_daily_progress = pos 30;
}

-- A time is its year.
abbrev pub sample_outside : Outside
sample_outside = record {
  local_time = λ t. record {
    tm_year = pos t -ℤ pos 1900;
    tm_mon = pos 0;
    tm_mday = pos 1;
    tm_hour = pos 0;
    tm_min = pos 0;
    tm_sec = pos 0;
  };
  unix_timestamp = λ s. pos_part (atoi s);
  unknown_sub_type = λ z. monster;
  unknown_deal_status = λ z. complete;
  recover_times = λ pass minutes. pos 0;
  recover_time = λ now pass minutes times. now;
}
