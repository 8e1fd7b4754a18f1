-- ===== src/Hero/Tasks/Refresh.antt =====
-- The tasks and the gold after `RefreshTask` of gameserver/DreamHero.cpp.
use dream_heroes.Base.{
  Bool, List, Option, [], arith, if◌then◌else◌, inl, length, length-append, none, refl, some, ◌∷◌,
  ◌≡◌, ◌≢◌, ◌≤◌, ◌⊎◌,
}
use dream_heroes.Base.Int.{==ℤ_iff, pos, ℤ, ◌-ℤ◌, ◌<ℤ◌, ◌==ℤ◌, ◌≤ℤ◌, -ℤ_parts}
use dream_heroes.Config.{Env, GameConfig, TaskConfig}
use dream_heroes.Error.{GameError, error_no, is_no}
use dream_heroes.Hero.{DreamHero, TaskInfo, set_tasks}
use dream_heroes.Hero.Tasks.{
  RefreshTaskAck, give_up, new_task, refresh_accept, refresh_answer, refresh_check, refresh_error,
  refresh_pay, refresh_taken, refresh_task, tasks_after_give_up,
}
use dream_heroes.Hero.Tasks.Drawn.{IsKeyed, IsNew, radnom_task_info-IsNew}
use dream_heroes.Hero.Tasks.Held.{
  IsDistinct, IsDistinct-append, OneLess, Taken, give_up-OneLess, give_up-Taken,
}

-- What the tests leave of the hero: the same gold, tasks without a repeat, and room where they pass.
record Checked (c : GameConfig) (h h' : DreamHero) (error : GameError) : Type 0 where
  pub same_gold : h'.gold ≡ h.gold
  pub distinct : IsDistinct h'.tasks
  pub fewer : length h'.tasks ≤ length h.tasks
  pub room : (error ≢ error_no) ⊎ (pos (length h'.tasks) <ℤ c.hero_max_tasks_count)

refresh_accept-Checked :
    (c : GameConfig) (env : Env) (h : DreamHero)
    → IsDistinct h.tasks
    → Checked c h (refresh_accept c env h).0 (refresh_accept c env h).1
unfolding refresh_accept
refresh_accept-Checked c env h d = ground (arith, -ℤ_parts c.hero_max_tasks_count (pos 1))

-- Tasks without a repeat, and no more than before.
abbrev Fewer : List TaskInfo → Option (List TaskInfo) → Type 0
Fewer ts none = Unit
Fewer ts (some rest) = IsDistinct rest × (length rest ≤ length ts)

tasks_after_give_up-Fewer :
    (id : ℤ) (ts : List TaskInfo) → IsDistinct ts → Fewer ts (tasks_after_give_up id ts)
unfolding tasks_after_give_up
tasks_after_give_up-Fewer id ts d =
    by_case (give_up id ts) (give_up-Taken id ts d) (give_up-OneLess id ts)
  where
    by_case :
        (o : Option (List TaskInfo))
        → Taken ts o
        → OneLess ts o
        → Fewer ts (if id ==ℤ pos 0 then some ts else o)
    by_case none t l = ground arith
    by_case (some rest) t l = ground arith

refresh_taken-Checked :
    (c : GameConfig) (env : Env) (h : DreamHero) (o : Option (List TaskInfo))
    → IsDistinct h.tasks
    → Fewer h.tasks o
    → Checked c h (refresh_taken c env h o).0 (refresh_taken c env h o).1
unfolding refresh_taken
refresh_taken-Checked c env h none d f = ground arith
refresh_taken-Checked c env h (some ts) d f =
    let k = refresh_accept-Checked c env (set_tasks h ts) f.0 in
    record {
      same_gold = k.same_gold;
      distinct = k.distinct;
      fewer = omega (arith, k.fewer, f.1);
      room = k.room;
    }

refresh_check-Checked :
    (c : GameConfig) (env : Env) (h : DreamHero) (id : ℤ) (gold : Bool)
    → IsDistinct h.tasks
    → Checked c h (refresh_check c env h id gold).0 (refresh_check c env h id gold).1
unfolding refresh_check
refresh_check-Checked c env h id gold d =
    by_case (refresh_error c env h gold)
      (refresh_taken-Checked c env h _ d (tasks_after_give_up-Fewer id h.tasks d))
  where
    taken : DreamHero × GameError
    taken = refresh_taken c env h (tasks_after_give_up id h.tasks)

    by_case :
        (e : GameError)
        → Checked c h taken.0 taken.1
        → Checked c h (if is_no e then taken else (h, e)).0 (if is_no e then taken else (h, e)).1
    by_case error_no k = k
    by_case e k = record {
      same_gold = refl;
      distinct = d;
      fewer = omega arith;
      room = inl (λ q. cc);
    }

-- The hero after the request: the tasks have no repeat, and stay within the limit or did not grow; a task
-- was entered and paid for, or none was and the gold is as before.
abbrev pub Refreshed : GameConfig → DreamHero → DreamHero → RefreshTaskAck → Type 0
Refreshed c h h' ack =
    IsDistinct h'.tasks
    × ((pos (length h'.tasks) ≤ℤ c.hero_max_tasks_count) ⊎ (length h'.tasks ≤ length h.tasks))
    × ((((length ack.infos ≡ 1) × (ack.error ≡ error_no))
          × (h'.gold ≡ h.gold -ℤ c.refresh_task_gold))
        ⊎ ((ack.infos ≡ []) × (h'.gold ≡ h.gold)))

refresh_answer-Refreshed :
    (c : GameConfig) (h : DreamHero) (id : ℤ) (config : TaskConfig) (h' : DreamHero) (e : GameError)
    → Checked c h h' e
    → IsNew h'.info config
    → Refreshed c h (refresh_answer c id config h' e).0 (refresh_answer c id config h' e).1
unfolding refresh_answer refresh_pay
refresh_answer-Refreshed c h id config h' e k n = ground (
  arith,
  ==ℤ_iff config.task_id (pos 0),
  IsDistinct-append h'.tasks (new_task config.task_id) k.distinct,
  length-append h'.tasks (new_task config.task_id ∷ []),
)

-- If the task configuration is filed under its ids, then advertising a task keeps the tasks free of
-- repeats, and their number within the configured limit or no higher than it was. The answer names at most
-- one task; if it names one, the price of a refresh is taken, with and without the request's `gold` flag,
-- and if it names none, the gold stays.
pub refresh_task_outcome :
    (c : GameConfig) (env : Env) (h : DreamHero) (give_up_task_id : ℤ) (gold : Bool)
    → IsKeyed c.tasks
    → IsDistinct h.tasks
    → let (h', ack) = refresh_task c env h give_up_task_id gold in Refreshed c h h' ack
unfolding refresh_task
refresh_task_outcome c env h id gold k d =
    let (h', e) = refresh_check c env h id gold in
    refresh_answer-Refreshed c h id _ h' e (refresh_check-Checked c env h id gold d)
      (radnom_task_info-IsNew c h'.info (env.rand 0) id k)
