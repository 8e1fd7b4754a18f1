-- ===== src/Sessions/Commands.antt =====
-- The commands of administrators of gameserver/session.cpp.
pub mod Level
mod Tests
use dream_heroes.Base.{Bool, Bytes, List, Option, [], false, if◌then◌else◌, some, true, ◌>>=◌, ◌∷◌}
use dream_heroes.Base.Int.{ltb_ℤ, pos, ℤ, ◌+ℤ◌}
use dream_heroes.Config.{Env, GameConfig}
use dream_heroes.Error.{GameError, cmd_failed_required_gm_level, error_no}
use dream_heroes.Hero.{DreamHero, set_concern_weixin, set_jewel, set_spirit}
use dream_heroes.Hero.Daily.{reset_daily_game}
use dream_heroes.Hero.Instance.{enter_game}
use dream_heroes.Hero.Rewards.{
  load_from_config, req_modify_gold, req_remove_all_special_creature_list, req_reset_map,
  req_set_special_creature_list,
}
use dream_heroes.Hero.Tasks.{req_modify_task_complete_count, req_replace_task}
use dream_heroes.Rank.{RankManager}

-- The commands but that for the level of another hero.
pub data AdminCommand : Type 0 where
  cmd_enter_game : (chapter_id section_id : ℤ) → AdminCommand
  cmd_reset_map : (chapter_id section_id : ℤ) → AdminCommand
  cmd_reset_concern_wei_xin cmd_reset_game : AdminCommand
  cmd_modify_gold cmd_modify_jewel cmd_modify_spirit : (count : ℤ) → AdminCommand
  cmd_replace_task cmd_modify_task_complete_count : (count : ℤ) → AdminCommand
  cmd_set_special_creature_his : (creature_id status : ℤ) → AdminCommand
  cmd_remove_special_creature_list_his : AdminCommand
  cmd_reset_daily_lottery cmd_reset_daily_game cmd_clear_daily_rank_list : AdminCommand

-- `ClearRankList`
clear_rank_list : RankManager → RankManager
clear_rank_list r = record r { heroes_daily_rank = []; heroes_rank = [] }

-- `ResetWeiXin`
reset_wei_xin : DreamHero → DreamHero
reset_wei_xin h = set_concern_weixin h false

-- `ResetDailyLottery`
reset_daily_lottery : DreamHero → DreamHero
reset_daily_lottery h = record h { last_day_lottery_time = 0 }

modify_jewel : DreamHero → ℤ → DreamHero
modify_jewel h jewel = set_jewel h (h.jewel +ℤ jewel)

modify_spirit : DreamHero → ℤ → DreamHero
modify_spirit h spirit = set_spirit h (h.spirit +ℤ spirit)

with_ranks : RankManager → DreamHero → Option (DreamHero × RankManager)
with_ranks r h = some (h, r)

-- What a command does for an administrator. `name` is what `generateName` returns.
perform :
    GameConfig
    → Env
    → Bytes
    → AdminCommand
    → DreamHero
    → RankManager
    → Option (DreamHero × RankManager)
unfolding with_ranks modify_jewel modify_spirit reset_wei_xin reset_daily_lottery clear_rank_list
perform c env name (cmd_enter_game chapter section) h r =
    with_ranks r (enter_game c h chapter section true).0
perform c env name (cmd_reset_map chapter section) h r =
    with_ranks r (req_reset_map h chapter section)
perform c env name cmd_reset_concern_wei_xin h r = with_ranks r (reset_wei_xin h)
perform c env name cmd_reset_game h r = with_ranks r (load_from_config c h name h.channel)
perform c env name (cmd_modify_gold count) h r = with_ranks r (req_modify_gold h count).0
perform c env name (cmd_modify_jewel count) h r = with_ranks r (modify_jewel h count)
perform c env name (cmd_modify_spirit count) h r = with_ranks r (modify_spirit h count)
perform c env name (cmd_replace_task count) h r = with_ranks r (req_replace_task c env h count).0
perform c env name (cmd_modify_task_complete_count count) h r =
    with_ranks r (req_modify_task_complete_count h count).0
perform c env name (cmd_set_special_creature_his id status) h r =
    with_ranks r (req_set_special_creature_list h id status)
perform c env name cmd_remove_special_creature_list_his h r =
    with_ranks r (req_remove_all_special_creature_list h)
perform c env name cmd_reset_daily_lottery h r = with_ranks r (reset_daily_lottery h)
perform c env name cmd_reset_daily_game h r = reset_daily_game r h
perform c env name cmd_clear_daily_rank_list h r = some (h, clear_rank_list r)

-- `getGMLevel() > 0`
pub is_admin : DreamHero → Bool
is_admin h = ltb_ℤ (pos 0) h.gm_level

-- The error of the session's answer, besides that of `EnterGame`.
pub command_error : DreamHero → GameError
unfolding is_admin
command_error h = if is_admin h then error_no else cmd_failed_required_gm_level

-- A command of a session with this hero: for other players than administrators nothing happens.
pub command :
    GameConfig
    → Env
    → Bytes
    → AdminCommand
    → DreamHero
    → RankManager
    → Option (DreamHero × RankManager)
unfolding perform is_admin
command c env name cmd h r = if is_admin h then perform c env name cmd h r else some (h, r)

-- Commands one after another, each with the name that would be drawn for it.
pub commands :
    GameConfig
    → Env
    → List (AdminCommand × Bytes)
    → DreamHero
    → RankManager
    → Option (DreamHero × RankManager)
unfolding command
commands c env [] h r = some (h, r)
commands c env ((cmd, name) ∷ l) h r = do
  (h', r') ← command c env name cmd h r
  commands c env l h' r'
