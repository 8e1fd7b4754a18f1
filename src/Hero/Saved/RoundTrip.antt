-- ===== src/Hero/Saved/RoundTrip.antt =====
-- `SaveHero` of gameserver/DreamHero.cpp against `dbDoQueryHeroInfo` of databaseserver/db_quest.cpp.
use dream_heroes.Base.{Bool, List, ap, false, if◌then◌else◌, not, refl, some, true, ℕ, ◌≡◌}
use dream_heroes.Base.Int.{pos, ◌==ℤ◌}
use dream_heroes.Hero.{DreamHero}
use dream_heroes.Hero.Saved.Columns.Lists.{
  load_grid_state-save_grid_state, load_heroes-save_heroes, load_lotions-save_lotions,
  load_records-save_records, load_special_creatures-save_special_creatures, load_tasks-save_tasks,
  pairs_of,
}
use dream_heroes.Hero.Saved.Columns.Sections.{kept_sections, load_special_kills-save_special_kills}
use dream_heroes.Hero.Saved.Row.{
  DealInfo, HeroDataMsg, Outside, build_unix_time_to_string, db_do_query_hero_info, read_row,
  save_hero,
}

-- The database gives a time back as it was given.
abbrev KeepsTime : Outside → ℕ → Type 0
KeepsTime o t = o.unix_timestamp (build_unix_time_to_string o t) ≡ t

abbrev pub KeepsTimes : Outside → DreamHero → Type 0
KeepsTimes o h =
    KeepsTime o h.last_task_advertisement_time
    × KeepsTime o h.last_recover_spirit_time
    × KeepsTime o h.last_buy_spirit_time
    × KeepsTime o h.last_day_lottery_time
    × KeepsTime o h.daily_game_time
    × KeepsTime o h.daily_game_prize_time
    × KeepsTime o h.last_daily_reset_game_time

-- The message that describes the hero: its data as they are, its sections that hold a kill.
abbrev pub describe : DreamHero → List DealInfo → HeroDataMsg
describe h deals = record {
  account = h.account;
  hero_data = h.info;
  current_chapter = h.current_chapter;
  current_section = h.current_section;
  free_task_count = h.current_task_count;
  last_task_advertisement_time = h.last_task_advertisement_time;
  special_kills = kept_sections h.special_kills;
  gm_level = h.gm_level;
  deals = deals;
  special_creatures = pairs_of h.special_creatures;
  last_recover_spirit_time = h.last_recover_spirit_time;
  last_buy_spirit_time = h.last_buy_spirit_time;
  last_lottery_time = h.last_day_lottery_time;
  daily_game_time = h.daily_game_time;
  daily_game_prize_time = h.daily_game_prize_time;
  last_daily_reset_game_time = h.last_daily_reset_game_time;
}

number_bool : (b : Bool) → not ((if b then pos 1 else pos 0) ==ℤ pos 0) ≡ b
number_bool true = refl
number_bool false = refl

pub read_saved_row :
    (o : Outside) (h : DreamHero) (deals : List DealInfo)
    → KeepsTimes o h
    → read_row o (save_hero o h) deals ≡ describe h deals
unfolding read_row save_hero
read_saved_row o h deals (t1, t2, t3, t4, t5, t6, t7) =
    rw
      (
        load_records-save_records h.records,
        load_heroes-save_heroes h.heroes,
        load_tasks-save_tasks h.tasks,
        load_lotions-save_lotions h.lotions,
        load_grid_state-save_grid_state h.grid_notify_state,
        load_special_kills-save_special_kills o.unknown_sub_type h.special_kills,
        load_special_creatures-save_special_creatures h.special_creatures,
        number_bool h.concern_weixin,
        t1,
        t2,
        t3,
        t4,
        t5,
        t6,
        t7,
      )
      refl

-- A saved hero is loaded with all of its data: the seven text columns are parsed back to the lists that they
-- were printed from, the special kills except for sections without a kill, and every number and time is the
-- saved one, if the database gives the hero's seven times back as it was given them.
pub load_saved_hero :
    (o : Outside) (h : DreamHero) (deals : List DealInfo)
    → KeepsTimes o h
    → db_do_query_hero_info o (some (save_hero o h)) deals ≡ some (describe h deals)
unfolding db_do_query_hero_info
load_saved_hero o h deals t = ap some (read_saved_row o h deals t)
