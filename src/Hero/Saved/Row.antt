-- ===== src/Hero/Saved/Row.antt =====
-- `DreamHero::SaveHero` of gameserver/DreamHero.cpp, `dbDoQueryHeroInfo` and
-- `dbDoQueryHeroDeals` of databaseserver/db_quest.cpp, and the message `MsgHeroDataDB2GS` between the servers.
use dream_heroes.Base.{Bytes, List, Option, if◌then◌else◌, none, not, some, ℕ, ◌%◌, ◌++◌, ◌^◌, ◌∷◌}
use dream_heroes.Base.Int.{pos, ℤ, ◌+ℤ◌, ◌==ℤ◌}
use dream_heroes.Hero.{DealStatusType, DreamHero, HeroData, IntPair, SubType}
use dream_heroes.Hero.Saved.Columns.{
  MapSpecialKill, load_grid_state, load_heroes, load_lotions, load_records, load_special_creatures,
  load_special_kills, load_tasks, save_grid_state, save_heroes, save_lotions, save_records,
  save_special_creatures, save_special_kills, save_tasks,
}
use dream_heroes.Text.Number.{print_int}

-- `struct tm`
pub record Tm : Type 0 where
  pub tm_year : ℤ
  pub tm_mon : ℤ
  pub tm_mday : ℤ
  pub tm_hour : ℤ
  pub tm_min : ℤ
  pub tm_sec : ℤ

-- What is not the repository's: `localtime`, the `UNIX_TIMESTAMP` of the database on a time it was given as a
-- text, the casts of numbers that name no constructor, and the arithmetic of `set_info` in single precision.
pub record Outside : Type 0 where
  pub local_time : ℕ → Tm
  pub unix_timestamp : Bytes → ℕ
  pub unknown_sub_type : ℤ → SubType
  pub unknown_deal_status : ℤ → DealStatusType
  -- `int recorver_times = time_pass / entry_time`, from `time_pass` and the minutes
  pub recover_times : ℕ → ℤ → ℤ
  -- `g_server_time - (time_pass - (recorver_times * entry_time))`
  pub recover_time : ℕ → ℕ → ℤ → ℤ → ℕ

-- `convert_unix_time` and the `sprintf` of `build_unix_time_to_string`
unfoldable pub build_unix_time_to_string : Outside → ℕ → Bytes
build_unix_time_to_string o t =
    let p = o.local_time (t % 2 ^ 32) in
    print_int (p.tm_year +ℤ pos 1900)
    ++ 45
      ∷ (print_int (p.tm_mon +ℤ pos 1)
          ++ 45
            ∷ (print_int p.tm_mday
                ++ 32
                  ∷ (print_int p.tm_hour ++ 58 ∷ (print_int p.tm_min ++ 58 ∷ print_int p.tm_sec))))

-- The values of the statement on `character`, in its order.
pub record CharacterRow : Type 0 where
  pub account_id : ℕ
  pub name : Bytes
  pub gold : ℤ
  pub record_his : Bytes
  pub heroes_state : Bytes
  pub tasks : Bytes
  pub special_kill : Bytes
  pub current_hero : ℤ
  pub current_chapter : ℤ
  pub current_section : ℤ
  pub complete_task_count : ℤ
  pub special_creatures : Bytes
  pub free_task_count : ℤ
  pub last_task_advertisement_time : Bytes
  pub gm_level : ℤ
  pub current_task_count : ℤ
  pub tutorial_flag : ℤ
  pub jewel : ℤ
  pub spirit : ℤ
  pub last_recover_spirit_time : Bytes
  pub day_buy_spirit : ℤ
  pub last_buy_spirit_time : Bytes
  pub lotions : Bytes
  pub last_lottery_time : Bytes
  pub daily_game_progress : ℤ
  pub daily_game_score : ℤ
  pub daily_game_gold : ℤ
  pub daily_game_time : Bytes
  pub daily_game_prize_time : Bytes
  pub daily_game_hp_pct : ℤ
  pub daily_game_record_progress : ℤ
  pub daily_reset_game_count : ℤ
  pub last_daily_reset_game_time : Bytes
  pub daily_top_grogress : ℤ
  pub daily_game_anger : ℤ
  pub concern_weixin : ℤ
  pub grid_state_notify : Bytes

-- `SaveHero`, the statement on `character`.
unfoldable pub save_hero : Outside → DreamHero → CharacterRow
save_hero o h =
    let time = build_unix_time_to_string o in
    record {
      account_id = h.account;
      name = h.name;
      gold = h.gold;
      record_his = save_records h.records;
      heroes_state = save_heroes h.heroes;
      tasks = save_tasks h.tasks;
      special_kill = save_special_kills h.special_kills;
      current_hero = h.current_hero;
      current_chapter = h.current_chapter;
      current_section = h.current_section;
      complete_task_count = h.complete_task_count;
      special_creatures = save_special_creatures h.special_creatures;
      free_task_count = h.current_task_count;
      last_task_advertisement_time = time h.last_task_advertisement_time;
      gm_level = h.gm_level;
      current_task_count = h.current_task_count;
      tutorial_flag = h.new_tutorial;
      jewel = h.jewel;
      spirit = h.spirit;
      last_recover_spirit_time = time h.last_recover_spirit_time;
      day_buy_spirit = h.day_buy_spirit;
      last_buy_spirit_time = time h.last_buy_spirit_time;
      lotions = save_lotions h.lotions;
      last_lottery_time = time h.last_day_lottery_time;
      daily_game_progress = h.daily_game_progress;
      daily_game_score = h.daily_game_score;
      daily_game_gold = h.daily_game_gold;
      daily_game_time = time h.daily_game_time;
      daily_game_prize_time = time h.daily_game_prize_time;
      daily_game_hp_pct = h.daily_game_hp_pct;
      daily_game_record_progress = h.daily_game_record_progress;
      daily_reset_game_count = h.daily_reset_game_count;
      last_daily_reset_game_time = time h.last_daily_reset_game_time;
      daily_top_grogress = h.daily_top_grogress;
      daily_game_anger = h.daily_game_anger;
      concern_weixin = if h.concern_weixin then pos 1 else pos 0;
      grid_state_notify = save_grid_state h.grid_notify_state;
    }

-- A row of `deal_wait_to_pay` in the answer, and `MsgDealInfo`.
pub record DealInfo : Type 0 where
  pub order : ℤ
  pub product_id : Bytes
  pub status : ℤ
  pub complete_status : ℤ
  pub cur_receipt : Bytes

pub record HeroDataMsg : Type 0 where
  pub account : ℕ
  pub hero_data : HeroData
  pub current_chapter : ℤ
  pub current_section : ℤ
  pub free_task_count : ℤ
  pub last_task_advertisement_time : ℕ
  pub special_kills : List MapSpecialKill
  pub gm_level : ℤ
  pub deals : List DealInfo
  pub special_creatures : List IntPair
  pub last_recover_spirit_time : ℕ
  pub last_buy_spirit_time : ℕ
  pub last_lottery_time : ℕ
  pub daily_game_time : ℕ
  pub daily_game_prize_time : ℕ
  pub last_daily_reset_game_time : ℕ

-- The message that `dbDoQueryHeroInfo` fills from the row, and `dbDoQueryHeroDeals` from the deals.
unfoldable pub read_row : Outside → CharacterRow → List DealInfo → HeroDataMsg
read_row o r deals = record {
  account = r.account_id;
  hero_data = record {
    name = r.name;
    gold = r.gold;
    records = load_records r.record_his;
    heroes = load_heroes r.heroes_state;
    tasks = load_tasks r.tasks;
    current_hero = r.current_hero;
    complete_task_count = r.complete_task_count;
    new_tutorial = r.tutorial_flag;
    jewel = r.jewel;
    spirit = r.spirit;
    day_buy_spirit = r.day_buy_spirit;
    lotions = load_lotions r.lotions;
    daily_game_progress = r.daily_game_progress;
    daily_game_gold = r.daily_game_gold;
    daily_game_score = r.daily_game_score;
    daily_game_hp_pct = r.daily_game_hp_pct;
    daily_game_record_progress = r.daily_game_record_progress;
    daily_reset_game_count = r.daily_reset_game_count;
    daily_top_grogress = r.daily_top_grogress;
    daily_game_anger = r.daily_game_anger;
    concern_weixin = not (r.concern_weixin ==ℤ pos 0);
    grid_notify_state = load_grid_state r.grid_state_notify;
  };
  current_chapter = r.current_chapter;
  current_section = r.current_section;
  free_task_count = r.free_task_count;
  last_task_advertisement_time = o.unix_timestamp r.last_task_advertisement_time;
  special_kills = load_special_kills o.unknown_sub_type r.special_kill;
  gm_level = r.gm_level;
  deals = deals;
  special_creatures = load_special_creatures r.special_creatures;
  last_recover_spirit_time = o.unix_timestamp r.last_recover_spirit_time;
  last_buy_spirit_time = o.unix_timestamp r.last_buy_spirit_time;
  last_lottery_time = o.unix_timestamp r.last_lottery_time;
  daily_game_time = o.unix_timestamp r.daily_game_time;
  daily_game_prize_time = o.unix_timestamp r.daily_game_prize_time;
  last_daily_reset_game_time = o.unix_timestamp r.last_daily_reset_game_time;
}

-- `dbDoQueryHeroInfo`: without a row `MsgNeedCreateHeroDB2GS` is sent, here `none`.
unfoldable pub db_do_query_hero_info :
    Outside → Option CharacterRow → List DealInfo → Option HeroDataMsg
db_do_query_hero_info o none deals = none
db_do_query_hero_info o (some row) deals = some (read_row o row deals)
