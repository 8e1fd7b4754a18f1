-- ===== src/Hero/Instance.antt =====
-- Entering a section (`EnterGame`) and unlocking a chapter
-- (`ReqUnlockChapter`) of gameserver/DreamHero.cpp.
pub mod Solvent
mod Tests
pub mod Unlock
pub mod Enter
use dream_heroes.Base.{Bool, List, Option, [], if◌then◌else◌, none, not, some, ◌&&◌, ◌++◌, ◌∷◌}
use dream_heroes.Base.Int.{leb_ℤ, ltb_ℤ, minus_one, pos, ℤ, ◌-ℤ◌, ◌==ℤ◌}
use dream_heroes.Base.Map.{find, pair_key}
use dream_heroes.Config.{ChapterConfig, GameConfig, get_chapter_config_info}
use dream_heroes.Error.{
  GameError, can_not_enter_game_not_enough_spirit, error_no, is_no,
  unlock_chapter_failed_not_found_the_unlock_chapter,
  unlock_chapter_failed_the_required_section_not_pass,
  unlock_chapter_failed_you_have_to_complete_enough_tasks,
  unlock_chapter_failed_you_not_have_enough_gold,
}
use dream_heroes.Hero.{DreamHero, IntPair, ObjConfig, set_gold, set_records, set_spirit}

pub record EnterGameAck : Type 0 where
  pub chapter_id : ℤ
  pub section_id : ℤ
  pub kill_list : List ObjConfig
  pub spirit : ℤ
  pub error : GameError

-- The spirit is asked for unless the caller is an administrator, or enters the section (-1, -1).
enter_game_error : GameConfig → DreamHero → ℤ → ℤ → Bool → GameError
enter_game_error c h chapter_id section_id admin =
    let use_spirit_config = c.config_enter_game_use_spirit in
    if admin
    then error_no
    else if (chapter_id ==ℤ minus_one) && (section_id ==ℤ minus_one)
    then error_no
    else if not (use_spirit_config ==ℤ pos 0) && ltb_ℤ h.spirit use_spirit_config
    then can_not_enter_game_not_enough_spirit
    else error_no

-- The special monsters that this hero has killed in the section.
kills_of : DreamHero → ℤ → ℤ → List ObjConfig
kills_of h chapter_id section_id = elim (find (chapter_id, section_id) h.special_kills) [
  | none ↦ []
  | some kills ↦ kills
]

enter_game_pay : GameConfig → DreamHero → ℤ → ℤ → DreamHero
enter_game_pay c h chapter_id section_id =
    let spirit = h.spirit -ℤ c.config_enter_game_use_spirit in
    let entered = record h { current_chapter = chapter_id; current_section = section_id } in
    set_spirit entered (if ltb_ℤ spirit (pos 0) then pos 0 else spirit)

pub enter_game : GameConfig → DreamHero → ℤ → ℤ → Bool → DreamHero × EnterGameAck
unfolding enter_game_error enter_game_pay
enter_game c h chapter_id section_id admin =
    let error = enter_game_error c h chapter_id section_id admin in
    let h' = if is_no error then enter_game_pay c h chapter_id section_id else h in
    (
      h',
      record {
        chapter_id = chapter_id;
        section_id = section_id;
        kill_list = if is_no error then kills_of h chapter_id section_id else [];
        spirit = h'.spirit;
        error = error;
      },
    )

pub record UnlockChapterAck : Type 0 where
  pub chapter_id : ℤ
  pub current_gold : ℤ
  pub error : GameError

-- The loop over the records: `none` is the early return at a record of the chapter itself, which
-- sends nothing; otherwise the error code after the loop.
unlock_scan : ChapterConfig → ℤ → List IntPair → GameError → Option GameError
unlock_scan config chapter_id [] en_error = some en_error
unlock_scan config chapter_id (r ∷ rs) en_error =
    let passed =
      (config.required_chapter_id ==ℤ r.number_1) && leb_ℤ config.required_section_id r.number_2 in
    let rest = unlock_scan config chapter_id rs (if passed then error_no else en_error) in
    if r.number_1 ==ℤ chapter_id then none else rest

unlock_pay : ChapterConfig → DreamHero → ℤ → DreamHero × GameError
unlock_pay config h chapter_id =
    let gold_current = h.gold -ℤ config.require_gold in
    if ltb_ℤ gold_current (pos 0)
    then (h, unlock_chapter_failed_you_not_have_enough_gold)
    else let records = h.records ++ record { number_1 = chapter_id; number_2 = pos 0 } ∷ [] in
      (set_gold (set_records h records) gold_current, error_no)

unlock_run : GameConfig → DreamHero → ℤ → Option (DreamHero × GameError)
unfolding unlock_pay
unlock_run c h chapter_id = elim (get_chapter_config_info c chapter_id) [
  | none ↦ some (h, unlock_chapter_failed_not_found_the_unlock_chapter)
  | some config ↦
      if ltb_ℤ h.complete_task_count config.required_task_complete_count
      then some (h, unlock_chapter_failed_you_have_to_complete_enough_tasks)
      else elim (unlock_scan config chapter_id h.records
          unlock_chapter_failed_the_required_section_not_pass) [
            | none ↦ none
            | some en_error ↦
                some (if is_no en_error then unlock_pay config h chapter_id else (h, en_error))
          ]
]

-- The answer's gold is the gold after the call: it is set before the tests, and again on success.
pub req_unlock_chapter : GameConfig → DreamHero → ℤ → DreamHero × Option UnlockChapterAck
unfolding unlock_run
req_unlock_chapter c h chapter_id = elim (unlock_run c h chapter_id) [
  | none ↦ (h, none)
  | some (h', en_error) ↦
      (h', some (record { chapter_id = chapter_id; current_gold = h'.gold; error = en_error }))
]
