-- ===== src/Hero/Tasks/Level.antt =====
-- The level of an administrator after `ReqReplaceTask`.
use dream_heroes.Base.{
  Bool, List, [], false, if◌then◌else◌, refl, suc, true, zero, ℕ, ◌++◌, ◌+◌, ◌∙◌, ◌∷◌, ◌≡◌,
}
use dream_heroes.Base.Int.{ltb_ℤ, pos, to_size, ℤ, ◌==ℤ◌}
use dream_heroes.Config.{Env, GameConfig, TaskConfig}
use dream_heroes.Hero.{DreamHero, set_tasks}
use dream_heroes.Hero.Tasks.{new_task, radnom_task_info, replace_loop, req_replace_task}

replace_loop-level :
    (c : GameConfig) (env : Env) (n i : ℕ) (h : DreamHero) (infos : List TaskConfig)
    → (replace_loop c env n i h infos).0.gm_level ≡ h.gm_level
unfolding replace_loop
replace_loop-level c env zero i h infos = refl
replace_loop-level c env (suc n) i h infos =
    replace_loop-level c env n (i + 1) _ _
    ∙ drawn ((radnom_task_info c h.info (env.rand i) (pos 0)).task_id ==ℤ pos 0)
  where
    drawn :
        (b : Bool)
        → (if b
            then h
            else set_tasks h (
                h.tasks
                ++ new_task (radnom_task_info c h.info (env.rand i) (pos 0)).task_id ∷ [])).gm_level
          ≡ h.gm_level
    drawn true = refl
    drawn false = refl

pub replace_task-level :
    (c : GameConfig) (env : Env) (h : DreamHero) (count : ℤ)
    → (req_replace_task c env h count).0.gm_level ≡ h.gm_level
unfolding req_replace_task
replace_task-level c env h count =
    replace_loop-level c env
      (to_size (if ltb_ℤ c.hero_max_tasks_count count then c.hero_max_tasks_count else count)) 0
      (set_tasks h []) []
