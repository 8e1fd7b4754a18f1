-- ===== src/Tests/Play.antt =====
-- A short play of the sample hero.
use dream_heroes.Base.{arith}
use dream_heroes.Base.Int.{pos}
use dream_heroes.Hero.{DreamHero, IsSolvent}
use dream_heroes.Hero.Exit.{req_exit_game}
use dream_heroes.Hero.Play.{
  HasFairAmounts, Reach-IsSolvent, after, start, step_buy_spirit, step_exit,
}
use dream_heroes.Hero.Shop.{req_buy_spirit}
use dream_heroes.Tests.{sample_config, sample_env, sample_exit, sample_hero}

fair : HasFairAmounts sample_config
fair = record {
  spirit_shop = (omega arith, tt);
  gifts = (omega arith, (omega arith, tt));
  recover = omega arith;
}

abbrev bought : DreamHero
bought = (req_buy_spirit sample_config sample_env sample_hero (pos 0)).0

Reach-IsSolvent_example : IsSolvent (req_exit_game sample_config bought sample_exit).0
Reach-IsSolvent_example =
    Reach-IsSolvent sample_config sample_hero (req_exit_game sample_config bought sample_exit).0
      fair (omega arith, omega arith, omega arith)
      (after (after start (step_buy_spirit sample_hero sample_env (pos 0)))
        (step_exit bought sample_exit (omega arith)))
