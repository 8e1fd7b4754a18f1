-- ===== src/Hero/Tasks/Offered.antt =====
-- What `RadnomTaskInfo` of gameserver/DreamHero.cpp draws, and when it draws nothing.
use dream_heroes.Base.{All, [], false, none, some, true, ◌∷◌, ◌≡◌, ◌⊎◌}
use dream_heroes.Base.Int.{pos, ℤ, ◌≤ℤ◌}
use dream_heroes.Base.Map.{Map, find, int_key}
use dream_heroes.Config.{GameConfig, TaskConfig, get_map_task}
use dream_heroes.Hero.{HeroData}
use dream_heroes.Hero.Tasks.{no_task, section_reached, task_offered, task_taken}
use dream_heroes.Hero.Tasks.Held.{has_task}

-- A map: no key stands twice.
abbrev pub IsMap : Map ℤ TaskConfig → Type 0
IsMap [] = Unit
IsMap ((id, config) ∷ m) = (find id m ≡ none) × IsMap m

-- The hero may get the task: it does not have it and does not give it up, and has completed as many tasks and come as
-- far in the chapters as the task requires.
abbrev pub IsOpen : HeroData → ℤ → TaskConfig → Type 0
IsOpen info give_up_task config =
    (has_task config.task_id info.tasks ≡ false)
    × (task_taken info.tasks give_up_task config.task_id ≡ false)
    × (config.require_unlock_complete_task_count ≤ℤ info.complete_task_count)
    × ((config.require_unlock_chapter ≡ pos 0)
        ⊎ (section_reached config.require_unlock_chapter config.require_unlock_section info.records
            ≡ true))

-- An id that is collected is that of an open task of the map.
abbrev FromMap : HeroData → ℤ → Map ℤ TaskConfig → ℤ → Type 0
FromMap info g m id =
    (config : TaskConfig) × (find id m ≡ some config)
    × (config.task_id ≡ id)
    × (task_offered info g config ≡ true)

-- An open task as it is configured, or no task, where none is open.
abbrev pub IsTaskDrawn : GameConfig → HeroData → ℤ → TaskConfig → Type 0
IsTaskDrawn c info give_up_task config =
    ((get_map_task c config.task_id ≡ some config) × IsOpen info give_up_task config)
    ⊎ ((config ≡ no_task)
        × All (λ (e : ℤ × TaskConfig). task_offered info give_up_task e.1 ≡ false) c.tasks)
