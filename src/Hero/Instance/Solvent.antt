-- ===== src/Hero/Instance/Solvent.antt =====
-- The balances after `EnterGame` and `ReqUnlockChapter` of gameserver/DreamHero.cpp.
use dream_heroes.Base.{Bool, Bool-cases, Option, arith, if◌then◌else◌, inl, inr, none, some}
use dream_heroes.Base.Int.{ltb_ℤ, ℤ}
use dream_heroes.Config.{ChapterConfig, GameConfig, get_chapter_config_info}
use dream_heroes.Error.{
  GameError, error_no, is_no, unlock_chapter_failed_not_found_the_unlock_chapter,
  unlock_chapter_failed_the_required_section_not_pass,
  unlock_chapter_failed_you_have_to_complete_enough_tasks,
}
use dream_heroes.Hero.{DreamHero, IsSolvent}
use dream_heroes.Hero.Instance.{
  UnlockChapterAck, enter_game, enter_game_pay, req_unlock_chapter, unlock_pay, unlock_run,
  unlock_scan,
}

pub enter_game-IsSolvent :
    (c : GameConfig) (h : DreamHero) (chapter section : ℤ) (admin : Bool)
    → IsSolvent h
    → IsSolvent (enter_game c h chapter section admin).0
unfolding enter_game enter_game_pay
enter_game-IsSolvent c h chapter section admin s = ground arith

unlock_pay-IsSolvent :
    (config : ChapterConfig) (h : DreamHero) (id : ℤ)
    → IsSolvent h
    → IsSolvent (unlock_pay config h id).0
unfolding unlock_pay
unlock_pay-IsSolvent config h id s = ground arith

-- The hero of a run, or the hero before it where it returns early.
abbrev RunSolvent : Option (DreamHero × GameError) → Type 0
RunSolvent none = Unit
RunSolvent (some (h, error)) = IsSolvent h

unlock_scanned :
    (config : ChapterConfig) (h : DreamHero) (id : ℤ) (o : Option GameError)
    → IsSolvent h
    → RunSolvent (elim o as (λ x. Option (DreamHero × GameError)) [
      | none ↦ none
      | some en_error ↦ some (if is_no en_error then unlock_pay config h id else (h, en_error))
    ])
unlock_scanned config h id none s = tt
unlock_scanned config h id (some e) s = by_error e
  where
    by_error : (e : GameError) → IsSolvent (if is_no e then unlock_pay config h id else (h, e)).0
    by_error error_no = unlock_pay-IsSolvent config h id s
    by_error e = s

unlock_run-Solvent :
    (c : GameConfig) (h : DreamHero) (id : ℤ) → IsSolvent h → RunSolvent (unlock_run c h id)
unfolding unlock_run
unlock_run-Solvent c h id s = by_case (get_chapter_config_info c id)
  where
    by_case :
        (o : Option ChapterConfig)
        → RunSolvent (elim o as (λ x. Option (DreamHero × GameError)) [
          | none ↦ some (h, unlock_chapter_failed_not_found_the_unlock_chapter)
          | some config ↦
              if ltb_ℤ h.complete_task_count config.required_task_complete_count
              then some (h, unlock_chapter_failed_you_have_to_complete_enough_tasks)
              else elim (unlock_scan config id h.records
                  unlock_chapter_failed_the_required_section_not_pass) [
                    | none ↦ none
                    | some en_error ↦
                        some (if is_no en_error then unlock_pay config h id else (h, en_error))
                  ]
        ])
    by_case none = s
    by_case (some config) =
        elim (Bool-cases (ltb_ℤ h.complete_task_count config.required_task_complete_count)) [
          | inl e ↦ rw e s
          | inr e ↦ rw e (unlock_scanned config h id _ s)
        ]

pub req_unlock_chapter-IsSolvent :
    (c : GameConfig) (h : DreamHero) (id : ℤ)
    → IsSolvent h
    → IsSolvent (req_unlock_chapter c h id).0
unfolding req_unlock_chapter
req_unlock_chapter-IsSolvent c h id s = by_case (unlock_run c h id) (unlock_run-Solvent c h id s)
  where
    by_case :
        (o : Option (DreamHero × GameError))
        → RunSolvent o
        → IsSolvent
            (elim o as (λ x. DreamHero × Option UnlockChapterAck) [
              | none ↦ (h, none)
              | some (h', en_error) ↦
                  (h', some (record { chapter_id = id; current_gold = h'.gold; error = en_error }))
            ]).0
    by_case none r = s
    by_case (some (h', e)) r = r
