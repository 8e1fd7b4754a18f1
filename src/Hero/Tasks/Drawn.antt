-- ===== src/Hero/Tasks/Drawn.antt =====
-- What `RadnomTaskInfo` of gameserver/DreamHero.cpp draws.
use dream_heroes.Base.{
  All, List, Option, [], arith, false, get_elem?, inl, inr, length, none, refl, some, suc, zero, ℕ,
  ◌%◌, ◌∷◌, ◌≡◌, ◌⊎◌,
}
use dream_heroes.Base.Int.{==ℤ_iff, pos, ℤ}
use dream_heroes.Base.Map.{Map, find, int_key}
use dream_heroes.Config.{GameConfig, TaskConfig, get_map_task}
use dream_heroes.Hero.{HeroData, TaskInfo}
use dream_heroes.Hero.Tasks.{no_task, offered_ids, radnom_task_info, task_taken}
use dream_heroes.Hero.Tasks.Held.{has_task}
use mathlib.Core.Path.{subst}
use mathlib.Core.Option.{some-injective}

-- The task configuration is filed under the ids of its entries.
abbrev pub IsKeyed : Map ℤ TaskConfig → Type 0
IsKeyed [] = Unit
IsKeyed ((id, config) ∷ m) = (config.task_id ≡ id) × IsKeyed m

pub find-IsKeyed :
    (id : ℤ) (m : Map ℤ TaskConfig) (config : TaskConfig)
    → IsKeyed m
    → find id m ≡ some config
    → config.task_id ≡ id
unfolding find
find-IsKeyed id [] config k e = cc
find-IsKeyed id ((j, x) ∷ m) config k e = ground (arith, ==ℤ_iff id j, find-IsKeyed id m config k.1)

get_map_task-IsKeyed :
    (c : GameConfig) (id : ℤ) (config : TaskConfig)
    → IsKeyed c.tasks
    → get_map_task c id ≡ some config
    → config.task_id ≡ id
unfolding get_map_task
get_map_task-IsKeyed c id config k e = find-IsKeyed id c.tasks config k e

pub task_taken-has_task :
    (ts : List TaskInfo) (give_up_task id : ℤ)
    → task_taken ts give_up_task id ≡ false
    → has_task id ts ≡ false
unfolding task_taken
task_taken-has_task [] g id h = refl
task_taken-has_task (t ∷ ts) g id h = ground (arith, task_taken-has_task ts g id)

-- No collected id is a task that the hero has.
offered_ids-All :
    (info : HeroData) (give_up_task : ℤ) (m : Map ℤ TaskConfig)
    → All (λ id. has_task id info.tasks ≡ false) (offered_ids info give_up_task m)
unfolding offered_ids
offered_ids-All info g [] = tt
offered_ids-All info g ((id, config) ∷ m) =
    ground (arith, offered_ids-All info g m, task_taken-has_task info.tasks g config.task_id)

pub get_elem?-All {ℓ κ} :
    {A : Type ℓ} (P : A → Type κ) (xs : List A) (i : ℕ) (x : A)
    → All P xs
    → get_elem? xs i ≡ some x
    → P x
get_elem?-All P [] i x h e = cc
get_elem?-All P (y ∷ xs) zero x h e = subst P (some-injective y x e) h.0
get_elem?-All P (y ∷ xs) (suc i) x h e = get_elem?-All P xs i x h.1 e

-- No task, or a task that the hero does not have.
abbrev pub IsNew : HeroData → TaskConfig → Type 0
IsNew info config = (config.task_id ≡ pos 0) ⊎ (has_task config.task_id info.tasks ≡ false)

pick_config : GameConfig → Option ℤ → TaskConfig
pick_config c o = elim o [
  | none ↦ no_task
  | some id_task ↦ elim (get_map_task c id_task) [ none ↦ no_task | some config ↦ config ]
]

pick_found :
    (info : HeroData) (id : ℤ) (o : Option TaskConfig)
    → has_task id info.tasks ≡ false
    → ((config : TaskConfig) → o ≡ some config → config.task_id ≡ id)
    → IsNew info (elim o [ none ↦ no_task | some config ↦ config ])
pick_found info id none h k = inl refl
pick_found info id (some config) h k = inr (rw (k config refl) h)

pick_config-IsNew :
    (c : GameConfig) (info : HeroData) (o : Option ℤ)
    → IsKeyed c.tasks
    → ((id : ℤ) → o ≡ some id → has_task id info.tasks ≡ false)
    → IsNew info (pick_config c o)
unfolding pick_config
pick_config-IsNew c info none k h = inl refl
pick_config-IsNew c info (some id) k h =
    pick_found info id (get_map_task c id) (h id refl)
      (λ config e. get_map_task-IsKeyed c id config k e)

-- What is drawn is no task, or a task that the hero does not have.
pub radnom_task_info-IsNew :
    (c : GameConfig) (info : HeroData) (r : ℕ) (give_up_task : ℤ)
    → IsKeyed c.tasks
    → IsNew info (radnom_task_info c info r give_up_task)
unfolding radnom_task_info pick_config
radnom_task_info-IsNew c info r g k =
    let ids = offered_ids info g c.tasks in
    pick_config-IsNew c info (get_elem? ids (r % length ids)) k
      (λ id e. get_elem?-All _ ids (r % length ids) id (offered_ids-All info g c.tasks) e)
