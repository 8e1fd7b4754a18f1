-- ===== src/Hero/Daily/Solvent.antt =====
-- The balances after `ReqResetDailyGameProgress` of gameserver/DreamHero.cpp.
use dream_heroes.Base.{Option, arith, none, some}
use dream_heroes.Base.Int.{ℤ, -ℤ_parts}
use dream_heroes.Config.{Env, GameConfig}
use dream_heroes.Hero.{DreamHero, IsSolvent}
use dream_heroes.Hero.Daily.{
  req_reset_daily_game_progress, reset_by_price, reset_count, reset_price, reset_priced, reset_run,
}

reset_priced-IsSolvent :
    (env : Env) (h : DreamHero) (count price : ℤ)
    → IsSolvent h
    → IsSolvent (reset_priced env h count price).0
unfolding reset_priced
reset_priced-IsSolvent env h count price s = ground (arith, -ℤ_parts h.jewel price)

by_price-IsSolvent :
    (env : Env) (h : DreamHero) (count : ℤ) (o : Option ℤ)
    → IsSolvent h
    → IsSolvent (reset_by_price env h count o).0
unfolding reset_by_price
by_price-IsSolvent env h count none s = s
by_price-IsSolvent env h count (some price) s = reset_priced-IsSolvent env h count price s

pub reset_daily-IsSolvent :
    (c : GameConfig) (env : Env) (h : DreamHero)
    → IsSolvent h
    → IsSolvent (req_reset_daily_game_progress c env h).0
unfolding req_reset_daily_game_progress reset_run
reset_daily-IsSolvent c env h s =
    let count = reset_count env h in
    ground (arith, by_price-IsSolvent env h count (reset_price c count) s)
