-- ===== src/Manager/Status.antt =====
-- `save` and `Load` of gameserver/DreamHeroManager.cpp: the table of the day and the counters in the table
-- `heroes_status`.
pub mod RoundTrip
use dream_heroes.Base.{Bytes, List, Option, [], map, none, some, ℕ, ◌%◌, ◌++◌, ◌-◌, ◌∷◌}
use dream_heroes.Base.Int.{negsuc, pos, ℤ}
use dream_heroes.Hero.Saved.Row.{Outside, build_unix_time_to_string}
use dream_heroes.Manager.Names.{DreamHeroManager}
use dream_heroes.Rank.{RankManager}
use dream_heroes.Rank.Save.{rows}
use dream_heroes.Text.Fields.{gather, join_loop}
use dream_heroes.Text.Number.{atoi, print_int}
use dream_heroes.Text.Split.{split_string_a}

-- The values of the statement on `heroes_status`, less the constant `sid`, the server's letter and the number
-- of heroes, which are not read.
pub record HeroesStatus : Type 0 where
  pub day_create_heroes_count : ℕ
  pub day_number : Bytes
  pub save_time : Bytes
  pub deal_order_id : ℕ
  pub daily_game_begin_time : Bytes

print_number : ℕ → Bytes
print_number n = print_int (pos n)

pub print_row : List ℕ → Bytes
unfolding print_number
print_row row = join_loop 44 [] (map print_number row)

pub save_day_number : List (List ℕ) → Bytes
save_day_number table = join_loop 59 [] (map print_row table)

-- `save`, with the manager, which notes the time.
pub save_status : Outside → ℕ → RankManager → DreamHeroManager → HeroesStatus × DreamHeroManager
save_status o server_time ranks m =
    let m' = record m { last_save_time = server_time } in
    (
      record {
        day_create_heroes_count = m'.day_create_heroes_count;
        day_number = save_day_number m'.day_number;
        save_time = build_unix_time_to_string o m'.last_save_time;
        deal_order_id = m'.deal_order_id;
        daily_game_begin_time = build_unix_time_to_string o ranks.daily_game_begin_time;
      },
      m',
    )

-- The conversion of an `int` to `u8`.
to_u8 : ℤ → ℕ
to_u8 (pos n) = n % 256
to_u8 (negsuc n) = 255 - n % 256

read_number : Bytes → List ℕ
unfolding to_u8
read_number piece = to_u8 (atoi piece) ∷ []

-- `_day_number[i][j] = ...` for the first places of a row. Places behind its end are not part of the array.
pub overwrite {ℓ} : {A : Type ℓ} → List A → List A → List A
overwrite [] old = old
overwrite (x ∷ xs) [] = []
overwrite (x ∷ xs) (y ∷ ys) = x ∷ overwrite xs ys

-- The loop over the rows of the text.
pub overwrite_rows : List Bytes → List (List ℕ) → List (List ℕ)
unfolding overwrite read_number
overwrite_rows [] old = old
overwrite_rows (p ∷ ps) [] = []
overwrite_rows (p ∷ ps) (row ∷ rows) =
    overwrite (gather read_number (split_string_a p 44)) row ∷ overwrite_rows ps rows

pub load_day_number : Bytes → List (List ℕ) → List (List ℕ)
load_day_number text old = overwrite_rows (split_string_a text 59) old

-- `Load`: without a row nothing is read; `names` are those of the table `character`.
pub load_status :
    Outside
    → Option HeroesStatus
    → List Bytes
    → RankManager × DreamHeroManager
    → RankManager × DreamHeroManager
load_status o none names (ranks, m) = (ranks, m)
load_status o (some row) names (ranks, m) = (
  record ranks { daily_game_begin_time = o.unix_timestamp row.daily_game_begin_time },
  record m {
    day_create_heroes_count = row.day_create_heroes_count;
    day_number = load_day_number row.day_number m.day_number;
    last_save_time = o.unix_timestamp row.save_time;
    deal_order_id = row.deal_order_id;
    names = m.names ++ names;
  },
)
