-- ===== src/Hero/Saved/Columns/Lists.antt =====
-- The columns of gameserver/DreamHero.cpp and databaseserver/db_quest.cpp that are lists of numbers.
use dream_heroes.Base.{
  Bool, Bytes, List, [], ap, arith, false, if◌then◌else◌, map, not, refl, true, ◌∙◌, ◌∷◌, ◌≡◌,
}
use dream_heroes.Base.Int.{pos, ℤ, ◌==ℤ◌}
use dream_heroes.Base.Map.{Map}
use dream_heroes.Hero.{IntBoolPair, IntPair, TaskInfo}
use dream_heroes.Hero.Saved.Columns.{
  load_grid_state, load_heroes, load_lotions, load_records, load_special_creatures, load_tasks,
  print_creature, print_grid, print_hero, print_record, print_task, read_creature, read_grid,
  read_hero, read_lotion, read_pair, read_record, read_state, read_task, read_triple, read_two,
  save_grid_state, save_heroes, save_lotions, save_records, save_special_creatures, save_tasks,
}
use dream_heroes.Text.Fields.{
  IsField, IsPiece-of_above, IsPiece-of_below, gather, gather-join, print_int-IsField, print_pair,
  print_pair-IsField, print_triple-IsField, split-print_pair, split-print_triple,
}
use dream_heroes.Text.Number.{atoi-print_int, print_int}
use dream_heroes.Text.Split.{IsPiece, join, split_string_a}

ruleset pair_laws = (split-print_pair, atoi-print_int)

row-IsPiece : (s : Bytes) → IsField 44 57 s → IsPiece 59 s
row-IsPiece s = IsPiece-of_above s 44 57 59 (omega arith)

number-IsPiece : (z : ℤ) → IsPiece 59 (print_int z)
number-IsPiece z = IsPiece-of_above (print_int z) 45 57 59 (omega arith) (print_int-IsField z)

read_record-print_record : (r : IntPair) → read_record (print_record r) ≡ r ∷ []
unfolding read_record print_record read_pair
read_record-print_record r = simp (pair_laws)

-- The records are read as they were saved.
pub load_records-save_records : (xs : List IntPair) → load_records (save_records xs) ≡ xs
unfolding load_records save_records print_record
load_records-save_records xs =
    gather-join 59 read_record print_record xs
      (λ r. row-IsPiece (print_record r) (print_pair-IsField r.number_1 r.number_2))
      read_record-print_record

read_hero-print_hero : (b : Bool) → read_hero (print_hero b) ≡ b ∷ []
unfolding read_hero print_hero
read_hero-print_hero true = rw (atoi-print_int (pos 1)) refl
read_hero-print_hero false = rw (atoi-print_int (pos 0)) refl

hero-IsPiece : (b : Bool) → IsPiece 59 (print_hero b)
unfolding print_hero
hero-IsPiece true = number-IsPiece (pos 1)
hero-IsPiece false = number-IsPiece (pos 0)

-- The heroes are read as they were saved.
pub load_heroes-save_heroes : (xs : List Bool) → load_heroes (save_heroes xs) ≡ xs
unfolding load_heroes save_heroes
load_heroes-save_heroes xs =
    gather-join 59 read_hero print_hero xs hero-IsPiece read_hero-print_hero

read_task-print_task : (t : TaskInfo) → read_task (print_task t) ≡ t ∷ []
unfolding read_task print_task read_triple
read_task-print_task t = simp (split-print_triple, atoi-print_int)

-- The tasks are read as they were saved.
pub load_tasks-save_tasks : (xs : List TaskInfo) → load_tasks (save_tasks xs) ≡ xs
unfolding load_tasks save_tasks print_task
load_tasks-save_tasks xs =
    gather-join 59 read_task print_task xs
      (λ t. row-IsPiece (print_task t) (print_triple-IsField t.task_id t.argument_1 t.use_time))
      read_task-print_task

state_number : (b : Bool) → not ((if b then pos 1 else pos 0) ==ℤ pos 0) ≡ b
state_number true = refl
state_number false = refl

read_grid-print_grid : (g : IntBoolPair) → read_grid (print_grid g) ≡ g ∷ []
unfolding read_grid print_grid read_state
read_grid-print_grid g = simp (pair_laws, state_number)

-- The states of the grids are read as they were saved.
pub load_grid_state-save_grid_state :
    (xs : List IntBoolPair) → load_grid_state (save_grid_state xs) ≡ xs
unfolding load_grid_state save_grid_state print_grid
load_grid_state-save_grid_state xs =
    gather-join 59 read_grid print_grid xs
      (λ g.
        row-IsPiece (print_grid g) (print_pair-IsField g.number (if g.valid then pos 1 else pos 0)))
      read_grid-print_grid

-- The pairs of a map, as the message has them.
pub pairs_of : Map ℤ ℤ → List IntPair
pairs_of [] = []
pairs_of ((k, v) ∷ m) = record { number_1 = k; number_2 = v } ∷ pairs_of m

print_pairs : (m : Map ℤ ℤ) → map print_creature m ≡ map print_record (pairs_of m)
unfolding pairs_of print_creature print_record
print_pairs [] = refl
print_pairs ((k, v) ∷ m) = ap (λ t. print_pair k v ∷ t) (print_pairs m)

read_creature-print_record : (r : IntPair) → read_creature (print_record r) ≡ r ∷ []
unfolding read_creature print_record read_two
read_creature-print_record r = simp (pair_laws)

-- The special creatures are read as they were saved.
pub load_special_creatures-save_special_creatures :
    (m : Map ℤ ℤ) → load_special_creatures (save_special_creatures m) ≡ pairs_of m
unfolding load_special_creatures save_special_creatures print_record
load_special_creatures-save_special_creatures m =
    ap (λ t. gather read_creature (split_string_a (join 59 t) 59)) (print_pairs m)
    ∙ gather-join 59 read_creature print_record (pairs_of m)
        (λ r. row-IsPiece (print_record r) (print_pair-IsField r.number_1 r.number_2))
        read_creature-print_record

-- The lotions are read as they were saved.
pub load_lotions-save_lotions : (xs : List ℤ) → load_lotions (save_lotions xs) ≡ xs
unfolding load_lotions save_lotions read_lotion
load_lotions-save_lotions xs =
    gather-join 44 read_lotion print_int xs
      (λ z. IsPiece-of_below (print_int z) 45 57 44 (omega arith) (print_int-IsField z))
      (λ z. ap (λ t. t ∷ []) (atoi-print_int z))
