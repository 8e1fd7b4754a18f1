-- ===== src/Tests/Daily.antt =====
-- The daily game at the sample hero.
use dream_heroes.Base.{arith, ◌≡◌, ◌⊎◌}
use dream_heroes.Base.Int.{pos}
use dream_heroes.Hero.Daily.{
  UpdateDailyReq, req_reset_daily_game_progress, reset_count, reset_price, try_to_get_game_prize,
}
use dream_heroes.Hero.Daily.Laws.{
  ResetOutcome, reset_daily_game_outcome, try_to_get_game_prize_once,
}
use dream_heroes.Tests.{sample_config, sample_env, sample_hero, sample_ranks}

reset_daily_game_outcome_example :
    let (h', ack) = req_reset_daily_game_progress sample_config sample_env sample_hero in
    ResetOutcome sample_config sample_env sample_hero h' ack.error
      (reset_price sample_config (reset_count sample_env sample_hero))
reset_daily_game_outcome_example =
    reset_daily_game_outcome sample_config sample_env sample_hero (omega arith)

try_to_get_game_prize_once_example :
    let h' = try_to_get_game_prize sample_config sample_ranks sample_hero in
    (try_to_get_game_prize sample_config sample_ranks h' ≡ h')
    × ((h' ≡ sample_hero) ⊎ (try_to_get_game_prize sample_config sample_ranks h' ≡ h'))
try_to_get_game_prize_once_example =
    try_to_get_game_prize_once sample_config sample_config sample_ranks sample_ranks sample_hero

abbrev sample_report : UpdateDailyReq
sample_report = record {
  daily_game_progress = pos 1;
  score = pos 30;
  hp_pct = pos 40;
  anger = pos 2;
}
