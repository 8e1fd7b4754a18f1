-- ===== src/Hero/Exit.antt =====
-- `ReqExitGame` of gameserver/DreamHero.cpp: what a client reports when it leaves a section.
pub mod Accounting
pub mod Kills
pub mod Sessions
pub mod Solvent
pub mod Progress
use dream_heroes.Base.{
  Bool, List, Option, [], has, if◌then◌else◌, keep, map, none, not, some, true, ◌&&◌, ◌++◌, ◌||◌,
  ◌∷◌,
}
use dream_heroes.Base.Int.{ltb_ℤ, minus_one, pos, ℤ, ◌+ℤ◌, ◌==ℤ◌}
use dream_heroes.Base.Map.{Map, assign, find, int_key, pair_key}
use dream_heroes.Config.{GameConfig, get_map_task}
use dream_heroes.Error.{
  GameError, error_no, failed_exit_game_not_found_the_use_lotion, is_no, not_enter_the_exit_game,
}
use dream_heroes.Hero.{DreamHero, HeroData, IntPair, ObjConfig, TaskInfo, sub_type_eq}
use dream_heroes.Hero.Tasks.{give_up}
use mathlib.Core.Option

pub record ExitGameReq : Type 0 where
  pub chapter_id : ℤ
  pub section_id : ℤ
  pub task_infos : List TaskInfo
  pub gold : ℤ
  pub success : Bool
  pub complete_tasks : List ℤ
  pub special_kill_list : List ObjConfig
  pub special_creatures : List IntPair
  pub use_lotions : List ℤ

pub record ExitGameAck : Type 0 where
  pub chapter_id : ℤ
  pub section_id : ℤ
  pub task_infos : List TaskInfo
  pub current_gold : ℤ
  pub task_gift : List IntPair
  pub success : Bool
  pub complete_task_count : ℤ
  pub error : GameError
  pub special_creatures : List IntPair
  pub current_lotions : List ℤ

-- The lotions named by the client must be the hero's. The copy that is searched is never shortened, so
-- one lotion may be named twice.
pub lotions_owned : List ℤ → List ℤ → Bool
lotions_owned lotions [] = true
lotions_owned lotions (l ∷ used) = has (λ x. l ==ℤ x) lotions && lotions_owned lotions used

-- The lotions that were not used.
lotions_left : List ℤ → List ℤ → List ℤ
lotions_left used = keep λ l. not (has (λ u. u ==ℤ l) used)

-- `cur_info->CopyFrom(task_entry)` at the first task with the id.
update_task : TaskInfo → List TaskInfo → List TaskInfo
update_task entry [] = []
update_task entry (t ∷ ts) =
    if t.task_id ==ℤ entry.task_id then entry ∷ ts else t ∷ update_task entry ts

update_tasks : List TaskInfo → List TaskInfo → List TaskInfo
update_tasks [] tasks = tasks
update_tasks (entry ∷ entries) tasks = update_tasks entries (update_task entry tasks)

-- One completed task: the gift, and the tasks that are left. A task without a configuration, or that
-- the hero does not have, gives nothing.
complete_task : GameConfig → ℤ → List TaskInfo → Option (ℤ × List TaskInfo)
complete_task c task_id tasks = elim (get_map_task c task_id) [
  | none ↦ none
  | some config ↦ Option.map (λ rest. (config.gift_gold, rest)) (give_up task_id tasks)
]

-- What the loop over the completed tasks has reached.
pub record Completed : Type 0 where
  pub tasks : List TaskInfo
  pub count : ℤ
  pub gift : List IntPair

complete_step : GameConfig → ℤ → Completed → Completed
unfolding complete_task
complete_step c task_id s = elim (complete_task c task_id s.tasks) [
  | none ↦ record s { gift = s.gift ++ record { number_1 = task_id; number_2 = pos 0 } ∷ [] }
  | some (gold, rest) ↦ record {
    tasks = rest;
    count = s.count +ℤ pos 1;
    gift = s.gift ++ record { number_1 = task_id; number_2 = gold } ∷ [];
  }
]

complete_loop : GameConfig → List ℤ → Completed → Completed
complete_loop c [] s = s
complete_loop c (task_id ∷ ids) s = complete_loop c ids (complete_step c task_id s)

-- The loop that adds the gifts of the answer.
add_gifts : ℤ → List IntPair → ℤ
add_gifts gold [] = gold
add_gifts gold (p ∷ ps) = add_gifts (gold +ℤ p.number_2) ps

-- On success each record of the chapter that stands just before the section moves on to it.
advance_records : ℤ → ℤ → List IntPair → List IntPair
advance_records chapter section [] = []
advance_records chapter section (r ∷ rs) =
    (if (r.number_1 ==ℤ chapter) && (section ==ℤ (r.number_2 +ℤ pos 1))
      then record r { number_2 = section }
      else r)
    ∷ advance_records chapter section rs

pub same_obj : ObjConfig → ObjConfig → Bool
same_obj a b = (a.id ==ℤ b.id) && sub_type_eq a.sub_type b.sub_type

-- Each special kill is remembered once.
add_kills : List ObjConfig → List ObjConfig → List ObjConfig
unfolding same_obj
add_kills kills [] = kills
add_kills kills (k ∷ ks) =
    add_kills (if has (λ x. same_obj x k) kills then kills else kills ++ k ∷ []) ks

add_creatures : Map ℤ ℤ → List IntPair → Map ℤ ℤ
add_creatures m [] = m
add_creatures m (p ∷ ps) = add_creatures (assign p.number_1 p.number_2 m) ps

-- `fillSpecialCreatureList`
pub fill_special_creature_list : Map ℤ ℤ → List IntPair
fill_special_creature_list = map λ (a, b). record { number_1 = a; number_2 = b }

-- The test at the start: the client must be in the section that it leaves.
exit_error : DreamHero → ExitGameReq → GameError
unfolding lotions_owned
exit_error h msg =
    if ((msg.chapter_id ==ℤ minus_one) && (msg.section_id ==ℤ minus_one))
      || not (msg.chapter_id ==ℤ h.current_chapter)
      || not (msg.section_id ==ℤ h.current_section)
    then not_enter_the_exit_game
    else if lotions_owned h.lotions msg.use_lotions
    then error_no
    else failed_exit_game_not_found_the_use_lotion

exit_completed : GameConfig → DreamHero → ExitGameReq → Completed
unfolding update_tasks complete_loop
exit_completed c h msg = complete_loop c msg.complete_tasks (record {
  tasks = update_tasks msg.task_infos h.tasks;
  count = h.complete_task_count;
  gift = [];
})

exit_gold : DreamHero → ExitGameReq → List IntPair → ℤ
unfolding add_gifts
exit_gold h msg gift = add_gifts ((if ltb_ℤ h.gold (pos 0) then pos 0 else h.gold) +ℤ msg.gold) gift

exit_info : DreamHero → ExitGameReq → Completed → HeroData
unfolding lotions_left exit_gold advance_records
exit_info h msg done = record h.info {
  lotions =
      if has (λ u. true) msg.use_lotions then lotions_left msg.use_lotions h.lotions else h.lotions;
  tasks = done.tasks;
  records =
      if msg.success then advance_records msg.chapter_id msg.section_id h.records else h.records;
  gold = exit_gold h msg done.gift;
  complete_task_count = done.count;
}

exit_pay : DreamHero → ExitGameReq → Completed → DreamHero
unfolding exit_info add_kills add_creatures
exit_pay h msg done =
    let key : ℤ × ℤ = (h.current_chapter, h.current_section) in
    let kills : List ObjConfig = elim (find key h.special_kills) [
      | none ↦ []
      | some kills ↦ kills
    ] in
    record h {
      info = exit_info h msg done;
      special_kills = assign key (add_kills kills msg.special_kill_list) h.special_kills;
      special_creatures = add_creatures h.special_creatures msg.special_creatures;
    }

-- Whatever the outcome, the hero is in no section afterwards.
pub req_exit_game : GameConfig → DreamHero → ExitGameReq → DreamHero × ExitGameAck
unfolding exit_error exit_completed exit_pay fill_special_creature_list
req_exit_game c h msg =
    let error = exit_error h msg in
    let done = exit_completed c h msg in
    let h' = if is_no error then exit_pay h msg done else h in
    (
      record h' { current_chapter = minus_one; current_section = minus_one },
      record {
        chapter_id = msg.chapter_id;
        section_id = msg.section_id;
        task_infos = if is_no error then done.tasks else [];
        current_gold = if is_no error then h'.gold else pos 0;
        task_gift = if is_no error then done.gift else [];
        success = msg.success;
        complete_task_count = if is_no error then done.count else h.complete_task_count;
        error = error;
        special_creatures = fill_special_creature_list h'.special_creatures;
        current_lotions = if is_no error then h'.lotions else [];
      },
    )
