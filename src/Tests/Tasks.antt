-- ===== src/Tests/Tasks.antt =====
-- Tasks at the sample hero.
use dream_heroes.Base.{refl, true}
use dream_heroes.Base.Int.{pos}
use dream_heroes.Base.Map.{int_key}
use dream_heroes.Hero.Tasks.{refresh_task}
use dream_heroes.Hero.Tasks.Refresh.{Refreshed, refresh_task_outcome}
use dream_heroes.Tests.{sample_config, sample_env, sample_hero}

refresh_task_outcome_example :
    let (h', ack) = refresh_task sample_config sample_env sample_hero (pos 7) true in
    Refreshed sample_config sample_hero h' ack
refresh_task_outcome_example =
    refresh_task_outcome sample_config sample_env sample_hero (pos 7) true (refl, (refl, tt))
      (refl, tt)
