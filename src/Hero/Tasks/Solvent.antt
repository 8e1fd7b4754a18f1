-- ===== src/Hero/Tasks/Solvent.antt =====
-- The balances after `RefreshTask` of gameserver/DreamHero.cpp.
use dream_heroes.Base.{
  List, Option, arith, if◌then◌else◌, inl, inr, none, refl, some, true, ◌≡◌, ◌≢◌, ◌⊎◌,
}
use dream_heroes.Base.Int.{ℤ, ◌≤ℤ◌, -ℤ_parts}
use dream_heroes.Config.{Env, GameConfig, TaskConfig}
use dream_heroes.Error.{GameError, error_no, is_no}
use dream_heroes.Hero.{DreamHero, IsSolvent, TaskInfo}
use dream_heroes.Hero.Tasks.{
  refresh_accept, refresh_answer, refresh_check, refresh_error, refresh_pay, refresh_taken,
  refresh_task, tasks_after_give_up,
}

-- What the tests leave of the balances: all of them, and, where they pass, enough gold for the price.
abbrev Covered : GameConfig → DreamHero → DreamHero → GameError → Type 0
Covered c h h' error =
    (h'.gold ≡ h.gold)
    × (h'.jewel ≡ h.jewel)
    × (h'.spirit ≡ h.spirit)
    × ((error ≢ error_no) ⊎ (c.refresh_task_gold ≤ℤ h.gold))

refresh_taken-Covered :
    (c : GameConfig) (env : Env) (h : DreamHero) (o : Option (List TaskInfo))
    → c.refresh_task_gold ≤ℤ h.gold
    → let (h', error) = refresh_taken c env h o in Covered c h h' error
unfolding refresh_taken refresh_accept
refresh_taken-Covered c env h none p = (refl, refl, refl, inr p)
refresh_taken-Covered c env h (some ts) p = ground arith

refresh_error-true :
    (c : GameConfig) (env : Env) (h : DreamHero)
    → refresh_error c env h true ≡ error_no
    → c.refresh_task_gold ≤ℤ h.gold
unfolding refresh_error
refresh_error-true c env h e = ground arith

refresh_check-Covered :
    (c : GameConfig) (env : Env) (h : DreamHero) (id : ℤ)
    → let (h', error) = refresh_check c env h id true in Covered c h h' error
unfolding refresh_check
refresh_check-Covered c env h id = by_case (refresh_error c env h true) refl
  where
    taken : DreamHero × GameError
    taken = refresh_taken c env h (tasks_after_give_up id h.tasks)

    by_case :
        (e : GameError)
        → refresh_error c env h true ≡ e
        → let (h', error) = if is_no e then taken else (h, e) in Covered c h h' error
    by_case error_no q = refresh_taken-Covered c env h _ (refresh_error-true c env h q)
    by_case e q = (refl, refl, refl, inl (λ p. cc))

refresh_answer-IsSolvent :
    (c : GameConfig) (h : DreamHero) (id : ℤ) (config : TaskConfig) (h' : DreamHero) (e : GameError)
    → Covered c h h' e
    → IsSolvent h
    → IsSolvent (refresh_answer c id config h' e).0
unfolding refresh_answer refresh_pay
refresh_answer-IsSolvent c h id config h' error_no k s =
    ground (arith, -ℤ_parts h'.gold c.refresh_task_gold)
refresh_answer-IsSolvent c h id config h' e k s = ground arith

pub refresh_task-IsSolvent :
    (c : GameConfig) (env : Env) (h : DreamHero) (id : ℤ)
    → IsSolvent h
    → IsSolvent (refresh_task c env h id true).0
unfolding refresh_task
refresh_task-IsSolvent c env h id s =
    let (h', e) = refresh_check c env h id true in
    refresh_answer-IsSolvent c h id _ h' e (refresh_check-Covered c env h id) s
