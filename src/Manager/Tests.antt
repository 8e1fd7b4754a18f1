-- ===== src/Manager/Tests.antt =====
-- The manager at a small state.
use dream_heroes.Base.{List, [], arith, none, refl, replicate, some, ℕ, ◌++◌, ◌<◌, ◌∷◌, ◌≡◌, ◌≢◌}
use dream_heroes.Base.Int.{◌+ℤ◌, ◌-ℤ◌}
use dream_heroes.Base.Map.{Map, find, nat_key}
use dream_heroes.Config.{to_u32}
use dream_heroes.Hero.{DreamHero}
use dream_heroes.Hero.Saved.Row.{build_unix_time_to_string}
use dream_heroes.Manager.Names.{DreamHeroManager, generate_name, generate_str, refresh_day_number}
use dream_heroes.Manager.Names.Distinct.{day_names_differ}
use dream_heroes.Manager.Names.Fresh.{NameOutcome, generate_name_outcome}
use dream_heroes.Manager.Names.Shuffled.{Permutes}
use dream_heroes.Manager.Prizes.{DayPaid, daily_game_update, daily_game_update_outcome}
use dream_heroes.Manager.Status.{load_status, save_status}
use dream_heroes.Manager.Status.RoundTrip.{load_saved_status}
use dream_heroes.Rank.Numbered.{found_rank}
use dream_heroes.Rank.Save.{rows}
use dream_heroes.Tests.{sample_config, sample_env, sample_hero, sample_outside, sample_ranks}
use dream_heroes.Text.Number.{atoi-dash}
use mathlib.Core.List.{Permᴰ}

abbrev sample_row : List ℕ
sample_row = 3 ∷ 1 ∷ 4 ∷ 0 ∷ 5 ∷ 9 ∷ 2 ∷ 6 ∷ 8 ∷ 7 ∷ []

abbrev sample_table : List (List ℕ)
sample_table = replicate 6 sample_row

abbrev sample_manager : DreamHeroManager
sample_manager = record {
  day_number = sample_table;
  day_create_heroes_count = 17;
  hero_day_title = 98 ∷ 97 ∷ 97 ∷ 0 ∷ [];
  names = (65 ∷ 98 ∷ []) ∷ (66 ∷ 99 ∷ []) ∷ [];
  heroes_orders = [];
  deal_order_id = 900;
  last_save_time = 100000;
}

-- A shuffle that swaps the first two numbers.
swap_first : ℕ → List ℕ → List ℕ
swap_first i [] = []
swap_first i (x ∷ []) = x ∷ []
swap_first i (x ∷ y ∷ xs) = y ∷ x ∷ xs

swap_first-Permutes : Permutes swap_first
unfolding swap_first
swap_first-Permutes i [] = Permᴰ.nil
swap_first-Permutes i (x ∷ []) = Permᴰ.cons refl Permᴰ.nil
swap_first-Permutes i (x ∷ y ∷ xs) = Permᴰ.swap refl refl

generate_name_outcome_example :
    let (m', name) = generate_name 65 sample_manager in
    (m' ≡ record sample_manager { day_create_heroes_count = m'.day_create_heroes_count })
    × (sample_manager.day_create_heroes_count < m'.day_create_heroes_count)
    × NameOutcome 65 sample_manager m'.day_create_heroes_count
        (generate_str 65 sample_manager 18 [])
        name
generate_name_outcome_example = generate_name_outcome 65 sample_manager

day_names_differ_example :
    let today = refresh_day_number swap_first 200000 100000 3600 sample_manager in
    generate_str 65 today 17 (113 ∷ []) ≢ generate_str 65 today 170 (113 ∷ [])
day_names_differ_example =
    day_names_differ swap_first 200000 100000 3600 65 17 170 (113 ∷ []) sample_manager
      swap_first-Permutes (omega arith) (omega arith) (omega arith)

begin_kept :
    sample_outside.unix_timestamp (build_unix_time_to_string sample_outside 100500) ≡ 100500
unfolding build_unix_time_to_string ◌+ℤ◌ ◌-ℤ◌
begin_kept = rw (atoi-dash 100500) refl

load_saved_status_example :
    load_status sample_outside
      (some (save_status sample_outside 100600 sample_ranks sample_manager).0)
      []
      (sample_ranks, record sample_manager { day_number = replicate 6 (replicate 10 0) })
    ≡ (
      sample_ranks,
      record sample_manager {
        day_create_heroes_count = 17;
        day_number = sample_table;
        deal_order_id = 900;
        names = sample_manager.names ++ [];
        last_save_time = sample_outside.unix_timestamp (
            build_unix_time_to_string sample_outside
              (save_status sample_outside 100600 sample_ranks sample_manager).1.last_save_time);
      },
    )
load_saved_status_example =
    load_saved_status sample_outside 100600 sample_ranks sample_ranks sample_manager
      (record sample_manager { day_number = replicate 6 (replicate 10 0) }) [] (ground arith)
      (ground arith) begin_kept

abbrev live_heroes : Map ℕ DreamHero
live_heroes = (7, sample_hero) ∷ []

daily_game_update_outcome_example :
    let (heroes', ranks', rows) =
      daily_game_update sample_config sample_env sample_ranks live_heroes in
    DayPaid sample_config sample_ranks 7
      (find 7 live_heroes)
      (found_rank 7 sample_ranks.heroes_daily_rank none)
      heroes'
      rows
    × (ranks'.heroes_daily_rank ≡ [])
    × (ranks'.heroes_rank ≡ [])
    × (ranks'.daily_game_begin_time ≡ to_u32 sample_env.server_time)
daily_game_update_outcome_example =
    daily_game_update_outcome sample_config sample_env sample_ranks live_heroes 7 (refl, (refl, tt))
