-- ===== src/Hero/Daily/Prized.antt =====
-- The prizes of the daily game that a live hero gets: `DailyGamePrize` and `TryToGetGamePrize`.
use dream_heroes.Base.{==_iff, Option, arith, none, some, ◌≡◌, ◌≢◌, ◌⊎◌}
use dream_heroes.Base.Int.{pos, ℤ, ◌+ℤ◌}
use dream_heroes.Config.{GameConfig}
use dream_heroes.Hero.{DreamHero}
use dream_heroes.Hero.Daily.{daily_game_prize, try_to_get_game_prize}
use dream_heroes.Rank.{RankManager, get_daily_game_prize}

-- What the prize of a rank does, if there is a rank: the prize waits for the hero, and the time of its game becomes
-- that of the game that was paid last, unless both are equal already.
abbrev pub Prized : GameConfig → DreamHero → Option ℤ → DreamHero → Type 0
Prized c h none h' = h' ≡ h
Prized c h (some rank) h' =
    ((h.daily_game_prize_time ≢ h.daily_game_time)
      × (h'.daily_game_gold ≡ get_daily_game_prize c rank)
      × (h'.daily_game_time ≡ h.daily_game_prize_time)
      × (h'.gold ≡ h.gold))
    ⊎ ((h.daily_game_prize_time ≡ h.daily_game_time) × (h' ≡ h))

pub daily_game_prize-Prized :
    (c : GameConfig) (h : DreamHero) (rank : ℤ)
    → Prized c h (some rank) (daily_game_prize h (get_daily_game_prize c rank))
unfolding daily_game_prize
daily_game_prize-Prized c h rank = ground (arith, ==_iff h.daily_game_prize_time h.daily_game_time)

-- What is done for a hero's missed game: its prize, by the progress, waits for the hero, if a game of its own is
-- over that has not been paid.
abbrev pub Tried : GameConfig → RankManager → DreamHero → DreamHero → Type 0
Tried c ranks h h' =
    ((ranks.daily_game_begin_time ≢ h.daily_game_time)
      × (h.daily_game_time ≢ 0)
      × (h.daily_game_time ≢ h.daily_game_prize_time)
      × (h'.daily_game_gold ≡ get_daily_game_prize c (h.daily_game_progress +ℤ pos 1))
      × (h'.daily_game_prize_time ≡ h.daily_game_time)
      × (h'.gold ≡ h.gold))
    ⊎ (((ranks.daily_game_begin_time ≡ h.daily_game_time)
          ⊎ (h.daily_game_time ≡ 0)
          ⊎ (h.daily_game_time ≡ h.daily_game_prize_time))
        × (h' ≡ h))

pub try_to_get_game_prize-Tried :
    (c : GameConfig) (ranks : RankManager) (h : DreamHero)
    → Tried c ranks h (try_to_get_game_prize c ranks h)
unfolding try_to_get_game_prize
try_to_get_game_prize-Tried c ranks h = ground (
  arith,
  ==_iff ranks.daily_game_begin_time h.daily_game_time,
  ==_iff h.daily_game_time 0,
  ==_iff h.daily_game_time h.daily_game_prize_time,
)
