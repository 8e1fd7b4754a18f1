-- ===== src/Hero/Instance/Tests.antt =====
-- Chapters and sections at the sample hero.
use dream_heroes.Base.{false, refl, true, ◌&&◌, ◌↔◌, ◌≡◌}
use dream_heroes.Base.Int.{minus_one, pos, ◌==ℤ◌}
use dream_heroes.Config.{get_chapter_config_info}
use dream_heroes.Error.{error_no}
use dream_heroes.Hero.Exit.{lotions_owned, req_exit_game}
use dream_heroes.Hero.Exit.Accounting.{ExitOutcome, exit_game_accounting}
use dream_heroes.Hero.Exit.Progress.{Advances, exit_game-Advances}
use dream_heroes.Hero.Exit.Sessions.{enter_then_exit}
use dream_heroes.Hero.Instance.{enter_game, req_unlock_chapter}
use dream_heroes.Hero.Instance.Enter.{EnterOutcome, enter_game_outcome}
use dream_heroes.Hero.Instance.Unlock.{UnlockOutcome, sent_error, unlock_chapter_outcome}
use dream_heroes.Tests.{sample_config, sample_exit, sample_hero}

unlock_chapter_outcome_example :
    let (h', ack) = req_unlock_chapter sample_config sample_hero (pos 2) in
    UnlockOutcome sample_hero
      (pos 2)
      h'
      (sent_error ack)
      (get_chapter_config_info sample_config (pos 2))
unlock_chapter_outcome_example = unlock_chapter_outcome sample_config sample_hero (pos 2)

enter_game_outcome_example :
    let (h', ack) = enter_game sample_config sample_hero (pos 1) (pos 2) false in
    EnterOutcome sample_config sample_hero (pos 1) (pos 2) false h' ack
enter_game_outcome_example = enter_game_outcome sample_config sample_hero (pos 1) (pos 2) false

exit_game_accounting_example :
    let (h', ack) = req_exit_game sample_config sample_hero sample_exit in
    ExitOutcome sample_hero sample_exit h' ack
exit_game_accounting_example = exit_game_accounting sample_config sample_hero sample_exit

entered : (enter_game sample_config sample_hero (pos 1) (pos 2) false).1.error ≡ error_no
unfolding enter_game
entered = refl

enter_then_exit_example :
    ((req_exit_game sample_config
        (enter_game sample_config sample_hero (pos 1) (pos 2) false).0
        sample_exit).1.error
      ≡ error_no)
    ↔ ((pos 1 ≡ pos 1)
        × (pos 2 ≡ pos 2)
        × (((pos 1 ==ℤ minus_one) && (pos 2 ==ℤ minus_one)) ≡ false)
        × (lotions_owned sample_hero.lotions sample_exit.use_lotions ≡ true))
enter_then_exit_example =
    enter_then_exit sample_config sample_hero (pos 1) (pos 2) false sample_exit entered

exit_game-Advances_example :
    Advances
      (pos 1)
      (pos 2)
      true
      sample_hero.records
      (req_exit_game sample_config sample_hero sample_exit).0.records
exit_game-Advances_example = exit_game-Advances sample_config sample_hero sample_exit
