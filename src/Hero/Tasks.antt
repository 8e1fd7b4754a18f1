-- ===== src/Hero/Tasks.antt =====
-- The advertised tasks of gameserver/DreamHero.cpp: `RadnomTaskInfo`, `RefreshTask`, `ReqReplaceTask`,
-- `ReqModifyTaskCompleteCount` and `dayRefresh`.
pub mod Held
pub mod Level
pub mod Drawn
pub mod Offered
pub mod Refresh
pub mod Solvent
use dream_heroes.Base.{
  Bool, List, Option, [], false, get_elem?, has, if◌then◌else◌, length, none, not, some, suc, true,
  zero, ℕ, ◌%◌, ◌&&◌, ◌++◌, ◌+◌, ◌==◌, ◌||◌, ◌∷◌,
}
use dream_heroes.Base.Int.{leb_ℤ, ltb_ℤ, pos, to_size, ℤ, ◌+ℤ◌, ◌-ℤ◌, ◌==ℤ◌}
use dream_heroes.Base.Map.{Map}
use dream_heroes.Config.{Env, GameConfig, TaskConfig, get_map_task, is_in_today, to_u32}
use dream_heroes.Error.{
  GameError, error_no, is_no, refresh_advertisement_task_failed_in_cd,
  refresh_advertisement_task_failed_not_enough_gold,
  refresh_advertisement_task_failed_not_found_give_up_task_id,
  refresh_advertisement_task_failed_unknow,
}
use dream_heroes.Hero.{
  DreamHero, HeroData, IntPair, TaskInfo, set_complete_task_count, set_day_buy_spirit, set_gold,
  set_tasks,
}
use mathlib.Core.Option

-- Whether the hero has the task, or is giving it up. The loop that tests both runs over the hero's
-- tasks, so that a hero with none excludes nothing.
pub task_taken : List TaskInfo → ℤ → ℤ → Bool
task_taken tasks give_up_task id = has (λ t. (t.task_id ==ℤ id) || (give_up_task ==ℤ id)) tasks

-- The loop over the records, which stops at the first record of the required chapter.
pub section_reached : ℤ → ℤ → List IntPair → Bool
section_reached chapter section [] = false
section_reached chapter section (r ∷ rs) =
    if r.number_1 ==ℤ chapter then leb_ℤ section r.number_2 else section_reached chapter section rs

-- Whether the loop over the configured tasks takes this one.
pub task_offered : HeroData → ℤ → TaskConfig → Bool
unfolding task_taken section_reached
task_offered info give_up_task config =
    not (task_taken info.tasks give_up_task config.task_id)
    && leb_ℤ config.require_unlock_complete_task_count info.complete_task_count
    && ((config.require_unlock_chapter ==ℤ pos 0)
        || section_reached config.require_unlock_chapter config.require_unlock_section info.records)

-- The ids that the loop collects.
offered_ids : HeroData → ℤ → Map ℤ TaskConfig → List ℤ
unfolding task_offered
offered_ids info give_up_task [] = []
offered_ids info give_up_task ((id, config) ∷ m) =
    if task_offered info give_up_task config
    then config.task_id ∷ offered_ids info give_up_task m
    else offered_ids info give_up_task m

-- A configuration whose id is zero: no task.
abbrev pub no_task : TaskConfig
no_task = record {
  task_id = pos 0;
  require_unlock_chapter = pos 0;
  require_unlock_section = pos 0;
  require_unlock_complete_task_count = pos 0;
  gift_gold = pos 0;
}

-- `rand() % vcTemp.size()` picks one of the collected ids.
pick_task : GameConfig → ℕ → List ℤ → TaskConfig
pick_task c r ids = elim (get_elem? ids (r % length ids)) [
  | none ↦ no_task
  | some id_task ↦ elim (get_map_task c id_task) [ none ↦ no_task | some config ↦ config ]
]

-- `r` is the value of `rand()`.
pub radnom_task_info : GameConfig → HeroData → ℕ → ℤ → TaskConfig
unfolding offered_ids pick_task
radnom_task_info c info r give_up_task = pick_task c r (offered_ids info give_up_task c.tasks)

-- The task as it is entered: no progress, no time used.
abbrev pub new_task : ℤ → TaskInfo
new_task id = record { task_id = id; argument_1 = pos 0; use_time = pos 0 }

-- `MsgS2CAdvertisementApplyTaskACK`, and `MsgS2CAdvertisementRefreshTaskACK` where a task is given up.
pub record RefreshTaskAck : Type 0 where
  pub give_up_task_id : ℤ
  pub infos : List TaskConfig
  pub current_gold : ℤ
  pub error : GameError

-- The first test: the gold, and then the free tasks of the day and the waiting time.
refresh_error : GameConfig → Env → DreamHero → Bool → GameError
refresh_error c env h gold =
    let diff_time = pos env.server_time -ℤ pos h.last_task_advertisement_time in
    if ltb_ℤ h.gold c.refresh_task_gold && gold
    then refresh_advertisement_task_failed_not_enough_gold
    else if ltb_ℤ c.day_free_task_count h.current_task_count
        && ltb_ℤ diff_time c.day_task_advertisement_task_cd
    then refresh_advertisement_task_failed_in_cd
    else error_no

-- `repeated_tasks->erase(it)` at the first task with the id; `none` if there is none.
pub give_up : ℤ → List TaskInfo → Option (List TaskInfo)
give_up id [] = none
give_up id (t ∷ ts) =
    if t.task_id ==ℤ id then some ts else Option.map (λ rest. t ∷ rest) (give_up id ts)

-- The tasks without the one that is given up.
tasks_after_give_up : ℤ → List TaskInfo → Option (List TaskInfo)
unfolding give_up
tasks_after_give_up give_up_task_id tasks =
    if give_up_task_id ==ℤ pos 0 then some tasks else give_up give_up_task_id tasks

-- The room for one more task is tested after the task is given up, and starts the waiting time.
refresh_accept : GameConfig → Env → DreamHero → DreamHero × GameError
refresh_accept c env h =
    if leb_ℤ (pos (length h.tasks)) (c.hero_max_tasks_count -ℤ pos 1)
    then (
      record h {
        current_task_count = h.current_task_count +ℤ pos 1;
        last_task_advertisement_time = to_u32 env.server_time;
      },
      error_no,
    )
    else (h, refresh_advertisement_task_failed_unknow)

-- The tasks are known, or the one to give up is not among them.
refresh_taken : GameConfig → Env → DreamHero → Option (List TaskInfo) → DreamHero × GameError
refresh_taken c env h none = (h, refresh_advertisement_task_failed_not_found_give_up_task_id)
refresh_taken c env h (some tasks) = refresh_accept c env (set_tasks h tasks)

refresh_check : GameConfig → Env → DreamHero → ℤ → Bool → DreamHero × GameError
refresh_check c env h give_up_task_id gold =
    let error = refresh_error c env h gold in
    if is_no error
    then refresh_taken c env h (tasks_after_give_up give_up_task_id h.tasks)
    else (h, error)

-- Enters the drawn task, and takes the gold: the amount of the configuration, whatever `gold` says.
refresh_pay : GameConfig → DreamHero → TaskConfig → DreamHero
refresh_pay c h config =
    set_gold (set_tasks h (h.tasks ++ new_task config.task_id ∷ [])) (h.gold -ℤ c.refresh_task_gold)

-- The task that was drawn is entered if all tests passed, and named in the answer.
refresh_answer : GameConfig → ℤ → TaskConfig → DreamHero → GameError → DreamHero × RefreshTaskAck
refresh_answer c give_up_task_id config h error =
    let have_task = not (config.task_id ==ℤ pos 0) && is_no error in
    let h' = if have_task then refresh_pay c h config else h in
    (
      h',
      record {
        give_up_task_id = give_up_task_id;
        infos = if have_task then config ∷ [] else [];
        current_gold = h'.gold;
        error = error;
      },
    )

pub refresh_task : GameConfig → Env → DreamHero → ℤ → Bool → DreamHero × RefreshTaskAck
refresh_task c env h give_up_task_id gold =
    let (h', error) = refresh_check c env h give_up_task_id gold in
    let config = radnom_task_info c h'.info (env.rand 0) give_up_task_id in
    refresh_answer c give_up_task_id config h' error

pub req_advertisement_apply_task : GameConfig → Env → DreamHero → Bool → DreamHero × RefreshTaskAck
req_advertisement_apply_task c env h gold = refresh_task c env h (pos 0) gold

pub req_advertisement_refresh_task :
    GameConfig → Env → DreamHero → ℤ → Bool → DreamHero × RefreshTaskAck
req_advertisement_refresh_task c env h give_up_task_id gold =
    refresh_task c env h give_up_task_id gold

-- The answer is the new count.
unfoldable pub req_modify_task_complete_count : DreamHero → ℤ → DreamHero × ℤ
req_modify_task_complete_count h task_complete_count =
    let count = if ltb_ℤ task_complete_count (pos 0) then pos 0 else task_complete_count in
    (set_complete_task_count h count, count)

-- The loop of `ReqReplaceTask`: `n` rounds are left, and `i` draws have been made.
replace_loop : GameConfig → Env → ℕ → ℕ → DreamHero → List TaskConfig → DreamHero × List TaskConfig
replace_loop c env zero i h infos = (h, infos)
replace_loop c env (suc n) i h infos =
    let config = radnom_task_info c h.info (env.rand i) (pos 0) in
    let none_left = config.task_id ==ℤ pos 0 in
    let h' = if none_left then h else set_tasks h (h.tasks ++ new_task config.task_id ∷ []) in
    replace_loop c env n (i + 1) h' (if none_left then infos else infos ++ config ∷ [])

-- The loop variable is a `size_t`, so a count below zero asks for about 2 ^ 64 rounds.
pub req_replace_task : GameConfig → Env → DreamHero → ℤ → DreamHero × List TaskConfig
unfolding replace_loop
req_replace_task c env h count =
    let task_count = if ltb_ℤ c.hero_max_tasks_count count then c.hero_max_tasks_count else count in
    replace_loop c env (to_size task_count) 0 (set_tasks h []) []

-- `true` unless the event was today; zero stands for never.
not_yet_today : Env → ℕ → Bool
not_yet_today env time = if time == 0 then true else not (is_in_today env time)

refresh_day_tasks : GameConfig → Env → DreamHero → DreamHero × List TaskConfig
refresh_day_tasks c env h =
    let reset = record h { current_task_count = pos 0 } in
    let config = radnom_task_info c h.info (env.rand 0) (pos 0) in
    if ltb_ℤ (pos (length h.tasks)) c.hero_max_tasks_count && not (config.task_id ==ℤ pos 0)
    then (set_tasks reset (h.tasks ++ new_task config.task_id ∷ []), config ∷ [])
    else (reset, [])

-- The new tasks are notified to the client if `need_send_msg`.
pub day_refresh : GameConfig → Env → DreamHero → Bool → DreamHero × List TaskConfig
unfolding not_yet_today refresh_day_tasks
day_refresh c env h need_send_msg =
    let (h', notified) =
      if not_yet_today env h.last_task_advertisement_time
      then refresh_day_tasks c env h
      else (h, []) in
    let after =
      if not_yet_today env h.last_buy_spirit_time then set_day_buy_spirit h' (pos 0) else h' in
    (after, if need_send_msg then notified else [])
