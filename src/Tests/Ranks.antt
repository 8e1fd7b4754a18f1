-- ===== src/Tests/Ranks.antt =====
-- The ranking at sample entries.
use dream_heroes.Base.{[], arith, if◌then◌else◌, none, refl, replicate, some, ◌==◌, ◌∷◌, ◌≡◌}
use dream_heroes.Base.Int.{pos}
use dream_heroes.Base.Map.{find, nat_key}
use dream_heroes.Rank.{RankManager, update_hero_daily_rank}
use dream_heroes.Rank.Numbered.{found_rank}
use dream_heroes.Rank.Order.{IsNumbered, IsOneEach, IsRanked, entry_of}
use dream_heroes.Rank.Update.{update_hero_daily_rank-IsRanked}
use dream_heroes.Tests.{sample_ranks}

update_hero_daily_rank-IsRanked_example :
    let (m', rank) = update_hero_daily_rank sample_ranks 100900 9 (122 ∷ []) (pos 30) in
    IsOneEach m'.heroes_daily_rank
    × IsRanked m'.heroes_daily_rank
    × IsNumbered (pos 1) m'.heroes_daily_rank
    × (find 8 m'.heroes_rank ≡ found_rank 8 m'.heroes_daily_rank none)
    × (entry_of 8 m'.heroes_daily_rank
        ≡ (if 9 == 8 then some (122 ∷ [], pos 30) else entry_of 8 sample_ranks.heroes_daily_rank))
    × (find 9 m'.heroes_rank ≡ some rank)
update_hero_daily_rank-IsRanked_example =
    update_hero_daily_rank-IsRanked sample_ranks 100900 9 (122 ∷ []) (pos 30) 8 (refl, (refl, tt))
      (omega arith)

abbrev many_ranks : RankManager
many_ranks = record sample_ranks {
  heroes_daily_rank =
      replicate 22
        (record { name = 120 ∷ []; acc = 7; score = pos 50; rank = pos 1; time = 100600 });
}
