-- ===== src/Hero/Progress.antt =====
-- The part of a `DreamHero` of gameserver/DreamHero.h that neither payments nor a login change.
use dream_heroes.Base.{Bool, Bytes, List, ℕ, ◌≡◌}
use dream_heroes.Base.Int.{ℤ}
use dream_heroes.Hero.{DreamHero, IntBoolPair, IntPair, TaskInfo}

pub record Progress : Type 0 where
  pub account : ℕ
  pub name : Bytes
  pub records : List IntPair
  pub heroes : List Bool
  pub tasks : List TaskInfo
  pub current_hero : ℤ
  pub complete_task_count : ℤ
  pub new_tutorial : ℤ
  pub day_buy_spirit : ℤ
  pub lotions : List ℤ
  pub daily_top_grogress : ℤ
  pub concern_weixin : Bool
  pub grid_notify_state : List IntBoolPair
  pub current_chapter : ℤ
  pub current_section : ℤ
  pub current_task_count : ℤ
  pub gm_level : ℤ
  pub last_task_advertisement_time : ℕ
  pub last_buy_spirit_time : ℕ
  pub last_day_lottery_time : ℕ

abbrev pub progress_of : DreamHero → Progress
progress_of h = record {
  account = h.account;
  name = h.name;
  records = h.records;
  heroes = h.heroes;
  tasks = h.tasks;
  current_hero = h.current_hero;
  complete_task_count = h.complete_task_count;
  new_tutorial = h.new_tutorial;
  day_buy_spirit = h.day_buy_spirit;
  lotions = h.lotions;
  daily_top_grogress = h.daily_top_grogress;
  concern_weixin = h.concern_weixin;
  grid_notify_state = h.grid_notify_state;
  current_chapter = h.current_chapter;
  current_section = h.current_section;
  current_task_count = h.current_task_count;
  gm_level = h.gm_level;
  last_task_advertisement_time = h.last_task_advertisement_time;
  last_buy_spirit_time = h.last_buy_spirit_time;
  last_day_lottery_time = h.last_day_lottery_time;
}

abbrev pub Keeps : DreamHero → DreamHero → Type 0
Keeps h h' = (progress_of h' ≡ progress_of h) × (h'.special_kills ≡ h.special_kills)
