-- ===== src/Rank.antt =====
-- gameserver/RankManager.cpp: the ranking of the daily game. `heroes_daily_rank` is the list that is
-- shown, and `heroes_rank` the map from accounts to ranks.
pub mod Numbered
pub mod Order
pub mod Removed
pub mod Save
pub mod Update
use dream_heroes.Base.{
  Bool, Bytes, List, Option, [], if◌then◌else◌, length, ltb, none, not, some, ℕ, ◌&&◌, ◌++◌, ◌==◌,
  ◌||◌, ◌∷◌,
}
use dream_heroes.Base.Int.{leb_ℤ, ltb_ℤ, pos, to_size, ℤ, ◌+ℤ◌, ◌==ℤ◌}
use dream_heroes.Base.Map.{Map, assign, find, nat_key}
use dream_heroes.Config.{DailyGamePrize, GameConfig, to_u32}
use mathlib.Core.Option

pub record DailyGameRank : Type 0 where
  pub name : Bytes
  pub acc : ℕ
  pub score : ℤ
  pub rank : ℤ
  pub time : ℕ

pub record RankManager : Type 0 where
  pub heroes_daily_rank : List DailyGameRank
  pub heroes_rank : Map ℕ ℤ
  pub daily_max_rank_size : ℤ
  pub min_daily_score : ℤ
  pub daily_game_begin_time : ℕ
  pub max_daily_progress : ℤ

-- `DailyRank`: a higher score comes first, and of equal scores the earlier one.
pub daily_rank : DailyGameRank → DailyGameRank → Bool
daily_rank t1 t2 = ltb_ℤ t2.score t1.score || ((t1.score ==ℤ t2.score) && ltb t1.time t2.time)

pub get_hero_daily_rank : RankManager → ℕ → ℤ
get_hero_daily_rank m acc = elim (find acc m.heroes_rank) [
  | none ↦ m.daily_max_rank_size +ℤ pos 1
  | some rank ↦ rank
]

-- `std::list::sort`, which is stable: the new element goes behind those that it is not before.
insert_by_rank : DailyGameRank → List DailyGameRank → List DailyGameRank
insert_by_rank x [] = x ∷ []
insert_by_rank x (y ∷ ys) = if daily_rank y x then y ∷ insert_by_rank x ys else x ∷ y ∷ ys

pub sort_by_rank : List DailyGameRank → List DailyGameRank
sort_by_rank [] = []
sort_by_rank (x ∷ xs) = insert_by_rank x (sort_by_rank xs)

-- The loop that numbers the list and fills the map.
pub number_ranks : ℤ → List DailyGameRank → List DailyGameRank
number_ranks temp_rank [] = []
number_ranks temp_rank (x ∷ xs) =
    record x { rank = temp_rank } ∷ number_ranks (temp_rank +ℤ pos 1) xs

pub rank_map : List DailyGameRank → Map ℕ ℤ → Map ℕ ℤ
rank_map [] m = m
rank_map (x ∷ xs) m = rank_map xs (assign x.acc x.rank m)

-- `rank = entry.rank_` at the entries of the account.
pub rank_of : ℕ → List DailyGameRank → ℤ → ℤ
rank_of acc [] rank = rank
rank_of acc (x ∷ xs) rank = rank_of acc xs (if x.acc == acc then x.rank else rank)

-- The loop that looks for the account: its entry takes the new score and name.
pub rescore : ℕ → Bytes → ℤ → List DailyGameRank → Option (List DailyGameRank)
rescore acc name score [] = none
rescore acc name score (x ∷ xs) =
    if x.acc == acc
    then some (record x { score = score; name = name } ∷ xs)
    else Option.map (λ rest. x ∷ rest) (rescore acc name score xs)

-- The new entry at the end of the list.
pub add_entry : RankManager → ℕ → ℕ → Bytes → ℤ → RankManager
add_entry m now acc name score =
    let rank = pos (length m.heroes_daily_rank) +ℤ pos 1 in
    record m {
      heroes_daily_rank =
          m.heroes_daily_rank
          ++ record { name = name; acc = acc; score = score; rank = rank; time = to_u32 now } ∷ [];
      heroes_rank = assign acc rank m.heroes_rank;
      min_daily_score = score;
    }

-- The sort and the numbering.
pub rerank : RankManager → RankManager
unfolding sort_by_rank number_ranks rank_map
rerank m =
    let ranked = number_ranks (pos 1) (sort_by_rank m.heroes_daily_rank) in
    record m { heroes_daily_rank = ranked; heroes_rank = rank_map ranked [] }

-- The entry of a known account is rescored; an unknown account is added if it needs to be.
enter_found : RankManager → ℕ → ℕ → Bytes → ℤ → Bool → Option (List DailyGameRank) → RankManager
unfolding add_entry
enter_found m now acc name score need_add (some ranked) = record m { heroes_daily_rank = ranked }
enter_found m now acc name score need_add none =
    if need_add then add_entry m now acc name score else m

-- An unknown account is added if its score is above the least, or if the map has room.
pub enter_score : RankManager → ℕ → ℕ → Bytes → ℤ → RankManager
unfolding rescore
enter_score m now acc name score =
    let full = not (ltb (length m.heroes_rank) (to_size m.daily_max_rank_size)) in
    let need_rank = ltb_ℤ m.min_daily_score score in
    enter_found m now acc name score (need_rank || not full)
      (rescore acc name score m.heroes_daily_rank)

-- The rank that the caller gets where no numbering follows.
pub enter_rank : RankManager → ℕ → Bytes → ℤ → ℤ
unfolding rescore
enter_rank m acc name score =
    let full = not (ltb (length m.heroes_rank) (to_size m.daily_max_rank_size)) in
    let need_rank = ltb_ℤ m.min_daily_score score in
    elim (rescore acc name score m.heroes_daily_rank) [
      | some ranked ↦ m.daily_max_rank_size +ℤ pos 1
      | none ↦
          if need_rank || not full
          then pos (length m.heroes_daily_rank) +ℤ pos 1
          else m.daily_max_rank_size +ℤ pos 1
    ]

-- The manager after the call, and the rank that it reports.
pub update_hero_daily_rank : RankManager → ℕ → ℕ → Bytes → ℤ → RankManager × ℤ
update_hero_daily_rank m now acc name score =
    let entered = enter_score m now acc name score in
    let rank = enter_rank m acc name score in
    let ranked = rerank entered in
    if ltb_ℤ m.min_daily_score score
    then (ranked, rank_of acc ranked.heroes_daily_rank rank)
    else (entered, rank)

-- The first configured range that holds the rank.
prize_of : List DailyGamePrize → ℤ → ℤ
prize_of [] rank = pos 0
prize_of (config ∷ configs) rank =
    if leb_ℤ config.begin_rank rank && leb_ℤ rank config.end_rank
    then config.prize_gold
    else prize_of configs rank

pub get_daily_game_prize : GameConfig → ℤ → ℤ
unfolding prize_of
get_daily_game_prize c rank = prize_of c.daily_game_prize_configs rank

-- `removeHero` from the iterator on. The erase gives the element behind the erased one, over which the
-- loop then steps; `none` is the step past the end, where the last element is erased.
pub remove_from : ℕ → ℤ → List DailyGameRank → Map ℕ ℤ → Option (List DailyGameRank × Map ℕ ℤ)
remove_from acc temp_rank [] ranks = some ([], ranks)
remove_from acc temp_rank (x ∷ []) ranks =
    if x.acc == acc
    then none
    else some (
      record x { rank = temp_rank } ∷ [],
      assign x.acc (temp_rank +ℤ pos 1) (assign x.acc temp_rank ranks),
    )
remove_from acc temp_rank (x ∷ y ∷ xs) ranks =
    let ranks' = assign x.acc temp_rank ranks in
    let skipped = remove_from acc temp_rank xs ranks' in
    let kept =
      remove_from acc (temp_rank +ℤ pos 1) (y ∷ xs) (assign x.acc (temp_rank +ℤ pos 1) ranks') in
    if x.acc == acc
    then Option.map (λ (l, m). (y ∷ l, m)) skipped
    else Option.map (λ (l, m). (record x { rank = temp_rank } ∷ l, m)) kept

pub remove_hero : RankManager → ℕ → Option RankManager
unfolding remove_from
remove_hero m acc =
    Option.map (λ (l, ranks). record m { heroes_daily_rank = l; heroes_rank = ranks })
      (remove_from acc (pos 1) m.heroes_daily_rank [])
