-- ===== src/Hero/Tasks/Held.antt =====
-- The list of a hero's tasks: taking a task out (`give_up`), and lists without a repeated task.
use dream_heroes.Base.{
  Bool, List, Option, [], arith, false, has, length, none, refl, some, suc, ◌++◌, ◌||◌, ◌∷◌, ◌≡◌,
}
use dream_heroes.Base.Int.{ℤ, ◌==ℤ◌}
use dream_heroes.Hero.{TaskInfo}
use dream_heroes.Hero.Tasks.{give_up}

-- A task that is taken out leaves one task less.
abbrev pub OneLess : List TaskInfo → Option (List TaskInfo) → Type 0
OneLess ts none = Unit
OneLess ts (some rest) = length ts ≡ suc (length rest)

pub give_up-OneLess : (id : ℤ) (ts : List TaskInfo) → OneLess ts (give_up id ts)
unfolding give_up
give_up-OneLess id [] = tt
give_up-OneLess id (t ∷ ts) = ground (arith, give_up-OneLess id ts)

-- The hero has the task.
abbrev pub has_task : ℤ → List TaskInfo → Bool
has_task id = has λ t. t.task_id ==ℤ id

-- No task stands twice in the list.
abbrev pub IsDistinct : List TaskInfo → Type 0
IsDistinct [] = Unit
IsDistinct (t ∷ ts) = (has_task t.task_id ts ≡ false) × IsDistinct ts

-- What a task that is taken out leaves.
abbrev pub Taken : List TaskInfo → Option (List TaskInfo) → Type 0
Taken ts none = Unit
Taken ts (some rest) = IsDistinct rest

-- A task that is not in the list is not in what is left of it.
abbrev StillMissing : ℤ → Option (List TaskInfo) → Type 0
StillMissing a none = Unit
StillMissing a (some rest) = has_task a rest ≡ false

give_up-StillMissing :
    (a id : ℤ) (ts : List TaskInfo) → has_task a ts ≡ false → StillMissing a (give_up id ts)
unfolding give_up
give_up-StillMissing a id [] h = tt
give_up-StillMissing a id (t ∷ ts) h = ground (arith, give_up-StillMissing a id ts)

pub give_up-Taken : (id : ℤ) (ts : List TaskInfo) → IsDistinct ts → Taken ts (give_up id ts)
unfolding give_up
give_up-Taken id [] d = tt
give_up-Taken id (t ∷ ts) d =
    ground (arith, give_up-Taken id ts d.1, give_up-StillMissing t.task_id id ts d.0)

has_task-append :
    (a : ℤ) (ts : List TaskInfo) (t : TaskInfo)
    → has_task a (ts ++ t ∷ []) ≡ (has_task a ts || (t.task_id ==ℤ a))
has_task-append a [] t = ground arith
has_task-append a (x ∷ ts) t = ground (arith, has_task-append a ts t)

pub IsDistinct-append :
    (ts : List TaskInfo) (t : TaskInfo)
    → IsDistinct ts
    → has_task t.task_id ts ≡ false
    → IsDistinct (ts ++ t ∷ [])
IsDistinct-append [] t d n = (refl, tt)
IsDistinct-append (x ∷ ts) t d n =
    ground (arith, IsDistinct-append ts t d.1, has_task-append x.task_id ts t)
