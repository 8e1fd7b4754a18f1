-- ===== src/Hero/Daily.antt =====
-- The daily game of gameserver/DreamHero.cpp: its progress, its reset for jewels, and its prizes.
pub mod Laws
pub mod Prized
pub mod Progress
pub mod Solvent
use dream_heroes.Base.{Option, get_elem?, if◌then◌else◌, none, not, some, ℕ, ◌&&◌, ◌==◌, ◌||◌}
use dream_heroes.Base.Int.{ltb_ℤ, pos, to_size, ℤ, ◌+ℤ◌, ◌-ℤ◌, ◌==ℤ◌}
use dream_heroes.Config.{Env, GameConfig, is_in_today, to_u32}
use dream_heroes.Error.{
  GameError, error_no, failed_to_reset_daily_game_not_enough_jewel,
  failed_to_reset_daily_game_the_progress_is_zero, failed_to_reset_daily_game_the_the_hp_is_full,
  failed_to_reset_daily_game_use_out, failed_to_update_daily_progress_error_progress,
  failed_to_update_daily_progress_is_max_progress, failed_to_update_daily_progress_no_hp, is_no,
}
use dream_heroes.Hero.{DreamHero, HeroData, set_daily_game_gold}
use dream_heroes.Rank.{
  RankManager, get_daily_game_prize, get_hero_daily_rank, remove_hero, update_hero_daily_rank,
}
use mathlib.Core.Option

pub record ResetDailyAck : Type 0 where
  pub error : GameError
  pub daily_game_progress : ℤ
  pub daily_reset_game_count : ℤ
  pub last_reset_daily_game_time : ℕ
  pub current_jewel : ℤ

-- The count of this reset, in the day of the last one.
pub reset_count : Env → DreamHero → ℤ
reset_count env h =
    if is_in_today env h.last_daily_reset_game_time
    then h.daily_reset_game_count +ℤ pos 1
    else pos 1

-- The price of a reset; `none` where the counts of the configuration are used up. The index is
-- compared as a `size_t`.
pub reset_price : GameConfig → ℤ → Option ℤ
reset_price c count = get_elem? c.daily_game_reset_jewel_config (to_size (count -ℤ pos 1))

reset_pay : Env → DreamHero → ℤ → ℤ → DreamHero
reset_pay env h count jewel = record h {
  info = record h.info {
    daily_game_progress = pos 0;
    daily_game_record_progress = pos 0;
    daily_game_hp_pct = pos 100;
    daily_game_anger = pos 0;
    jewel = h.jewel -ℤ jewel;
    daily_reset_game_count = count;
  };
  last_daily_reset_game_time = to_u32 env.server_time;
}

reset_priced : Env → DreamHero → ℤ → ℤ → DreamHero × GameError
unfolding reset_pay
reset_priced env h count jewel =
    if ltb_ℤ h.jewel jewel
    then (h, failed_to_reset_daily_game_not_enough_jewel)
    else if not (h.daily_game_hp_pct ==ℤ pos 100) || not (h.daily_game_progress ==ℤ pos 0)
    then (reset_pay env h count jewel, error_no)
    else (h, failed_to_reset_daily_game_the_the_hp_is_full)

reset_by_price : Env → DreamHero → ℤ → Option ℤ → DreamHero × GameError
reset_by_price env h count none = (h, failed_to_reset_daily_game_use_out)
reset_by_price env h count (some jewel) = reset_priced env h count jewel

reset_run : GameConfig → Env → DreamHero → DreamHero × GameError
reset_run c env h =
    if not (is_in_today env h.daily_game_time) || (h.daily_game_progress ==ℤ pos 0)
    then (h, failed_to_reset_daily_game_the_progress_is_zero)
    else reset_by_price env h (reset_count env h) (reset_price c (reset_count env h))

pub req_reset_daily_game_progress : GameConfig → Env → DreamHero → DreamHero × ResetDailyAck
req_reset_daily_game_progress c env h =
    let (h', error) = reset_run c env h in
    (
      h',
      record {
        error = error;
        daily_game_progress = h'.daily_game_progress;
        daily_reset_game_count = h'.daily_reset_game_count;
        last_reset_daily_game_time = h'.last_daily_reset_game_time;
        current_jewel = h'.jewel;
      },
    )

pub record UpdateDailyReq : Type 0 where
  pub daily_game_progress : ℤ
  pub score : ℤ
  pub hp_pct : ℤ
  pub anger : ℤ

pub record UpdateDailyAck : Type 0 where
  pub daily_game_progress : ℤ
  pub score : ℤ
  pub rank : ℤ
  pub hp_pct : ℤ
  pub error : GameError
  pub daily_game_progress_record : ℤ
  pub daily_game_time : ℕ
  pub anger : ℤ

-- A new daily game begins for the hero.
pub begin_daily : RankManager → DreamHero → DreamHero
begin_daily ranks h = if h.daily_game_time == ranks.daily_game_begin_time then h else record h {
  info = record h.info {
    daily_game_hp_pct = pos 100;
    daily_game_progress = pos 0;
    daily_game_score = pos 0;
    daily_game_anger = pos 0;
    daily_reset_game_count = pos 0;
  };
  daily_game_time = ranks.daily_game_begin_time;
}

-- The two chains of tests, joined: the error code after both.
update_daily_error : RankManager → DreamHero → UpdateDailyReq → ℤ → GameError
update_daily_error ranks h msg hp_pct =
    let next_record = h.daily_game_record_progress +ℤ pos 1 in
    let first = (msg.daily_game_progress ==ℤ pos 1) || (msg.daily_game_progress ==ℤ next_record) in
    let progress_temp =
      if ltb_ℤ (pos 0) hp_pct then h.daily_game_progress +ℤ pos 1 else h.daily_game_progress in
    if h.daily_game_progress ==ℤ ranks.max_daily_progress
    then failed_to_update_daily_progress_is_max_progress
    else if first && (h.daily_game_hp_pct ==ℤ pos 0)
    then failed_to_update_daily_progress_no_hp
    else if not (ltb_ℤ (pos 0) h.daily_game_hp_pct)
    then failed_to_update_daily_progress_no_hp
    else if (progress_temp ==ℤ msg.daily_game_progress) || (msg.daily_game_progress ==ℤ next_record)
    then error_no
    else failed_to_update_daily_progress_error_progress

update_daily_info : HeroData → UpdateDailyReq → ℤ → HeroData
update_daily_info info msg hp_pct = record info {
  daily_game_score = msg.score;
  daily_game_progress =
      if ltb_ℤ (pos 0) hp_pct then msg.daily_game_progress else info.daily_game_progress;
  daily_top_grogress =
      if ltb_ℤ info.daily_top_grogress msg.daily_game_progress
      then msg.daily_game_progress
      else info.daily_top_grogress;
  daily_game_anger = msg.anger;
  daily_game_hp_pct = hp_pct;
}

-- The hero, the ranking and the answer.
pub req_update_daily_game_progress :
    Env → RankManager → DreamHero → UpdateDailyReq → DreamHero × RankManager × UpdateDailyAck
req_update_daily_game_progress env ranks h msg =
    let hp_pct = if ltb_ℤ msg.hp_pct (pos 0) then pos 0 else msg.hp_pct in
    let begun = begin_daily ranks h in
    let error = update_daily_error ranks begun msg hp_pct in
    let ok = is_no error in
    let h' =
      if ok then record begun { info = update_daily_info begun.info msg hp_pct } else begun in
    let ranked = (update_hero_daily_rank ranks env.server_time h.account h.name msg.score).0 in
    let ranks' = if ok then ranked else ranks in
    (
      h',
      ranks',
      record {
        daily_game_progress = h'.daily_game_progress;
        score = h'.daily_game_score;
        rank = if ok then get_hero_daily_rank ranks' h.account else pos 101;
        hp_pct = h'.daily_game_hp_pct;
        error = error;
        daily_game_progress_record = h'.daily_game_record_progress;
        daily_game_time = h'.daily_game_time;
        anger = h'.daily_game_anger;
      },
    )

-- `TryToGetGamePrize`: when a new daily game has begun, the one before is paid once.
pub try_to_get_game_prize : GameConfig → RankManager → DreamHero → DreamHero
try_to_get_game_prize c ranks h =
    if not (ranks.daily_game_begin_time == h.daily_game_time)
      && not (h.daily_game_time == 0)
      && not (h.daily_game_time == h.daily_game_prize_time)
    then (let prize = get_daily_game_prize c (h.daily_game_progress +ℤ pos 1) in
        record (set_daily_game_gold h prize) { daily_game_prize_time = h.daily_game_time })
    else h

-- `DailyGamePrize`
pub daily_game_prize : DreamHero → ℤ → DreamHero
daily_game_prize h gold =
    if h.daily_game_prize_time == h.daily_game_time
    then h
    else record (set_daily_game_gold h gold) { daily_game_time = h.daily_game_prize_time }

-- `ResetDailyGame`; `none` is the step past the end of the ranking (`remove_hero`).
pub reset_daily_game : RankManager → DreamHero → Option (DreamHero × RankManager)
reset_daily_game ranks h =
    let cleared = record h {
      info = record h.info {
        daily_game_hp_pct = pos 100;
        daily_game_anger = pos 0;
        daily_game_progress = pos 0;
        daily_game_record_progress = pos 0;
        daily_reset_game_count = pos 0;
        daily_game_score = pos 0;
      };
      daily_game_time = 0;
      daily_game_prize_time = 0;
      last_daily_reset_game_time = 0;
    } in
    Option.map (λ r. (cleared, r)) (remove_hero ranks h.account)
