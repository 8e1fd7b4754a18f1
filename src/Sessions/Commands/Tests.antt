-- ===== src/Sessions/Commands/Tests.antt =====
-- Commands of a player who has come without the level of an administrator.
use dream_heroes.Base.{Bytes, List, [], refl, ◌∷◌, ◌≡◌}
use dream_heroes.Base.Int.{pos}
use dream_heroes.Error.{cmd_failed_required_gm_level}
use dream_heroes.Hero.{DreamHero}
use dream_heroes.Sessions.Commands.{
  AdminCommand, cmd_modify_gold, cmd_modify_jewel, cmd_reset_game, command_error, commands,
  is_admin,
}
use dream_heroes.Sessions.Commands.Level.{KeepsLevel, commands-KeepsLevel}
use dream_heroes.Tests.{sample_config, sample_env, sample_hero, sample_ranks}

abbrev plain_hero : DreamHero
plain_hero = record sample_hero { gm_level = pos 0 }

abbrev sample_commands : List (AdminCommand × Bytes)
sample_commands =
    (cmd_modify_gold (pos 500), [])
    ∷ (cmd_reset_game, 97 ∷ [])
    ∷ (cmd_modify_jewel (pos 7), [])
    ∷ []

commands-KeepsLevel_example :
    KeepsLevel plain_hero sample_ranks
      (commands sample_config sample_env sample_commands plain_hero sample_ranks)
commands-KeepsLevel_example =
    commands-KeepsLevel sample_config sample_env sample_commands plain_hero sample_ranks

plain_refused : command_error plain_hero ≡ cmd_failed_required_gm_level
unfolding command_error is_admin
plain_refused = refl
