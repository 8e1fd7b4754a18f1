-- ===== src/Hero/Saved/Columns.antt =====
-- The text columns of the table `character`: what `SaveHero` of gameserver/DreamHero.cpp writes, and what
-- `dbDoQueryHeroInfo` of databaseserver/db_quest.cpp reads.
pub mod Lists
pub mod Sections
use dream_heroes.Base.{Bool, Bytes, List, [], if◌then◌else◌, map, not, ◌++◌, ◌∷◌}
use dream_heroes.Base.Int.{pos, ℤ, ◌==ℤ◌}
use dream_heroes.Base.Map.{Map}
use dream_heroes.Hero.{IntBoolPair, IntPair, ObjConfig, SubType, TaskInfo, interactive, monster}
use dream_heroes.Text.Fields.{gather, print_pair, print_triple}
use dream_heroes.Text.Number.{atoi, print_int}
use dream_heroes.Text.Split.{is_filled, join, split_string_a, tail}

-- `"%d,%d"`
pub print_record : IntPair → Bytes
print_record r = print_pair r.number_1 r.number_2

pub save_records : List IntPair → Bytes
save_records xs = join 59 (map print_record xs)

pub print_hero : Bool → Bytes
print_hero b = if b then print_int (pos 1) else print_int (pos 0)

pub save_heroes : List Bool → Bytes
save_heroes xs = join 59 (map print_hero xs)

pub print_task : TaskInfo → Bytes
print_task t = print_triple t.task_id t.argument_1 t.use_time

pub save_tasks : List TaskInfo → Bytes
save_tasks xs = join 59 (map print_task xs)

pub print_grid : IntBoolPair → Bytes
print_grid g = print_pair g.number (if g.valid then pos 1 else pos 0)

pub save_grid_state : List IntBoolPair → Bytes
save_grid_state xs = join 59 (map print_grid xs)

pub print_creature : ℤ × ℤ → Bytes
print_creature (id, status) = print_pair id status

pub save_special_creatures : Map ℤ ℤ → Bytes
save_special_creatures m = join 59 (map print_creature m)

pub save_lotions : List ℤ → Bytes
save_lotions xs = join 44 (map print_int xs)

-- `(int)(*it_config).type()`
pub sub_type_number : SubType → ℤ
sub_type_number SubType.default = pos 0
sub_type_number monster = pos 1
sub_type_number interactive = pos 2

pub print_kill : ObjConfig → Bytes
print_kill k = print_pair k.id (sub_type_number k.sub_type)

-- `temp_str`, with `:` before each kill.
pub kills_text : List ObjConfig → Bytes
kills_text ks = tail 58 (map print_kill ks)

-- One turn of the loop on `_special_kills`: a section without kills is left out.
pub add_section : Bytes → ℤ × ℤ → Bytes → Bytes
add_section text key [] = text
add_section text (chapter, section) (c ∷ kills) =
    (if is_filled text then text ++ 59 ∷ [] else text) ++ (print_pair chapter section ++ c ∷ kills)

pub save_sections : Bytes → Map (ℤ × ℤ) (List ObjConfig) → Bytes
save_sections text [] = text
save_sections text ((key, ks) ∷ m) = save_sections (add_section text key (kills_text ks)) m

pub save_special_kills : Map (ℤ × ℤ) (List ObjConfig) → Bytes
save_special_kills m = save_sections [] m

-- A piece that does not split into the expected number of parts is skipped.
read_pair : List Bytes → List IntPair
read_pair (a ∷ b ∷ []) = record { number_1 = atoi a; number_2 = atoi b } ∷ []
read_pair other = []

pub read_record : Bytes → List IntPair
unfolding read_pair
read_record piece = read_pair (split_string_a piece 44)

pub load_records : Bytes → List IntPair
load_records text = gather read_record (split_string_a text 59)

pub read_hero : Bytes → List Bool
read_hero piece = not (atoi piece ==ℤ pos 0) ∷ []

pub load_heroes : Bytes → List Bool
load_heroes text = gather read_hero (split_string_a text 59)

read_triple : List Bytes → List TaskInfo
read_triple (a ∷ b ∷ c ∷ []) =
    record { task_id = atoi a; argument_1 = atoi b; use_time = atoi c } ∷ []
read_triple other = []

pub read_task : Bytes → List TaskInfo
unfolding read_triple
read_task piece = read_triple (split_string_a piece 44)

pub load_tasks : Bytes → List TaskInfo
load_tasks text = gather read_task (split_string_a text 59)

-- `outVC1.size() >= 2`
read_two : List Bytes → List IntPair
read_two (a ∷ b ∷ more) = record { number_1 = atoi a; number_2 = atoi b } ∷ []
read_two other = []

pub read_creature : Bytes → List IntPair
unfolding read_two
read_creature piece = read_two (split_string_a piece 44)

pub load_special_creatures : Bytes → List IntPair
load_special_creatures text = gather read_creature (split_string_a text 59)

read_state : List Bytes → List IntBoolPair
read_state (a ∷ b ∷ more) = record { number = atoi a; valid = not (atoi b ==ℤ pos 0) } ∷ []
read_state other = []

pub read_grid : Bytes → List IntBoolPair
unfolding read_state
read_grid piece = read_state (split_string_a piece 44)

pub load_grid_state : Bytes → List IntBoolPair
load_grid_state text = gather read_grid (split_string_a text 59)

pub read_lotion : Bytes → List ℤ
read_lotion piece = atoi piece ∷ []

pub load_lotions : Bytes → List ℤ
load_lotions text = gather read_lotion (split_string_a text 44)

-- `MsgMapSpecialKill`
pub record MapSpecialKill : Type 0 where
  pub chapter_id : ℤ
  pub section_id : ℤ
  pub kills : List ObjConfig

-- `(message::SubType)type_temp`; `unknown` is the value of a number that names no constructor.
pub as_sub_type : (ℤ → SubType) → ℤ → SubType
as_sub_type unknown z =
    if z ==ℤ pos 0
    then SubType.default
    else if z ==ℤ pos 1
    then monster
    else if z ==ℤ pos 2
    then interactive
    else unknown z

read_config : (ℤ → SubType) → List Bytes → List ObjConfig
read_config unknown (a ∷ b ∷ []) =
    record { sub_type = as_sub_type unknown (atoi b); id = atoi a } ∷ []
read_config unknown other = []

pub read_kill : (ℤ → SubType) → Bytes → List ObjConfig
unfolding read_config
read_kill unknown piece = read_config unknown (split_string_a piece 44)

read_key : (ℤ → SubType) → List Bytes → List Bytes → List MapSpecialKill
read_key unknown (a ∷ b ∷ []) pieces =
    record { chapter_id = atoi a; section_id = atoi b; kills = gather (read_kill unknown) pieces }
    ∷ []
read_key unknown other pieces = []

read_pieces : (ℤ → SubType) → List Bytes → List MapSpecialKill
unfolding read_key
read_pieces unknown (key ∷ kill ∷ more) = read_key unknown (split_string_a key 44) (kill ∷ more)
read_pieces unknown other = []

pub read_section : (ℤ → SubType) → Bytes → List MapSpecialKill
unfolding read_pieces
read_section unknown piece = read_pieces unknown (split_string_a piece 58)

pub load_special_kills : (ℤ → SubType) → Bytes → List MapSpecialKill
load_special_kills unknown text = gather (read_section unknown) (split_string_a text 59)
