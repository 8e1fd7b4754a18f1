-- ===== src/Hero/Daily/Progress.antt =====
-- What `TryToGetGamePrize` of gameserver/DreamHero.cpp leaves alone.
use dream_heroes.Base.{Bool-cases, inl, inr, not, refl, ◌&&◌, ◌==◌}
use dream_heroes.Config.{GameConfig}
use dream_heroes.Hero.{DreamHero}
use dream_heroes.Hero.Daily.{try_to_get_game_prize}
use dream_heroes.Hero.Progress.{Keeps}
use dream_heroes.Rank.{RankManager}

pub try_to_get_game_prize-Keeps :
    (c : GameConfig) (ranks : RankManager) (h : DreamHero)
    → Keeps h (try_to_get_game_prize c ranks h)
unfolding try_to_get_game_prize
try_to_get_game_prize-Keeps c ranks h =
    elim (Bool-cases (
      not (ranks.daily_game_begin_time == h.daily_game_time)
      && not (h.daily_game_time == 0)
      && not (h.daily_game_time == h.daily_game_prize_time))) [
        | inl e ↦ rw e (refl, refl)
        | inr e ↦ rw e (refl, refl)
      ]
