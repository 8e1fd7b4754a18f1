-- ===== src/Hero/Exit/Sessions.antt =====
-- `EnterGame` and `ReqExitGame` of gameserver/DreamHero.cpp as a state machine.
use dream_heroes.Base.{Bool, List, arith, false, inl, inr, refl, true, ◌&&◌, ◌↔◌, ◌∙◌, ◌≡◌}
use dream_heroes.Base.Int.{==ℤ_iff, minus_one, ℤ, ◌==ℤ◌}
use dream_heroes.Config.{GameConfig}
use dream_heroes.Error.{error_no, not_enter_the_exit_game}
use dream_heroes.Hero.{DreamHero}
use dream_heroes.Hero.Exit.{ExitGameAck, ExitGameReq, exit_error, lotions_owned, req_exit_game}
use dream_heroes.Hero.Exit.Accounting.{ExitOutcome, exit_game_accounting}
use dream_heroes.Hero.Instance.{enter_game}
use dream_heroes.Hero.Instance.Enter.{enter_game_lem}

exit_clears :
    (c : GameConfig) (h : DreamHero) (msg : ExitGameReq)
    → ((req_exit_game c h msg).0.current_chapter ≡ minus_one)
      × ((req_exit_game c h msg).0.current_section ≡ minus_one)
unfolding req_exit_game
exit_clears c h msg = (refl, refl)

nowhere_refuses :
    (h : DreamHero) (msg : ExitGameReq)
    → h.current_chapter ≡ minus_one
    → h.current_section ≡ minus_one
    → exit_error h msg ≡ not_enter_the_exit_game
unfolding exit_error
nowhere_refuses h msg p q =
    rw (p, q) (ground (arith, ==ℤ_iff msg.chapter_id minus_one, ==ℤ_iff msg.section_id minus_one))

exit_error-ack :
    (c : GameConfig) (h : DreamHero) (msg : ExitGameReq)
    → (req_exit_game c h msg).1.error ≡ exit_error h msg
unfolding req_exit_game
exit_error-ack c h msg = refl

-- A hero that has just left a section, with success or not, cannot leave again: every further exit is
-- answered with the error that no section was entered, and changes no datum of the hero.
pub exit_twice :
    (c : GameConfig) (h : DreamHero) (msg again : ExitGameReq)
    → let left = (req_exit_game c h msg).0 in
      let (h', ack) = req_exit_game c left again in
      (ack.error ≡ not_enter_the_exit_game) × (h'.info ≡ left.info)
exit_twice c h msg again =
    let left = (req_exit_game c h msg).0 in
    let (h', ack) = req_exit_game c left again in
    let cleared = exit_clears c h msg in
    let refused = exit_error-ack c left again ∙ nowhere_refuses left again cleared.0 cleared.1 in
    (refused, same left h' ack refused (exit_game_accounting c left again))
  where
    same :
        (left h' : DreamHero) (ack : ExitGameAck)
        → ack.error ≡ not_enter_the_exit_game
        → ExitOutcome left again h' ack
        → h'.info ≡ left.info
    same left h' ack r (inl ok) = cc
    same left h' ack r (inr refused) = refused.1

entered_error :
    (h : DreamHero) (msg : ExitGameReq) (chapter section : ℤ) (lotions : List ℤ)
    → h.current_chapter ≡ chapter
    → h.current_section ≡ section
    → h.lotions ≡ lotions
    → (exit_error h msg ≡ error_no) ↔ (
        (msg.chapter_id ≡ chapter)
        × (msg.section_id ≡ section)
        × (((chapter ==ℤ minus_one) && (section ==ℤ minus_one)) ≡ false)
        × (lotions_owned lotions msg.use_lotions ≡ true))
unfolding exit_error
entered_error h msg chapter section lotions p q r = (to, from)
  where
    to :
        exit_error h msg ≡ error_no
        → (msg.chapter_id ≡ chapter)
          × (msg.section_id ≡ section)
          × (((chapter ==ℤ minus_one) && (section ==ℤ minus_one)) ≡ false)
          × (lotions_owned lotions msg.use_lotions ≡ true)
    to e =
        ground (
          arith,
          ==ℤ_iff msg.chapter_id h.current_chapter,
          ==ℤ_iff msg.section_id h.current_section,
        )

    from :
        (msg.chapter_id ≡ chapter)
          × (msg.section_id ≡ section)
          × (((chapter ==ℤ minus_one) && (section ==ℤ minus_one)) ≡ false)
          × (lotions_owned lotions msg.use_lotions ≡ true)
        → exit_error h msg ≡ error_no
    from w =
        ground (
          arith,
          ==ℤ_iff msg.chapter_id h.current_chapter,
          ==ℤ_iff msg.section_id h.current_section,
        )

-- A hero that was let into a section is let out exactly by a report that names that section, which is not
-- the section (-1, -1), and only lotions that the hero has.
pub enter_then_exit :
    (c : GameConfig) (h : DreamHero) (chapter section : ℤ) (admin : Bool) (msg : ExitGameReq)
    → (enter_game c h chapter section admin).1.error ≡ error_no
    → ((req_exit_game c (enter_game c h chapter section admin).0 msg).1.error ≡ error_no) ↔ (
        (msg.chapter_id ≡ chapter)
        × (msg.section_id ≡ section)
        × (((chapter ==ℤ minus_one) && (section ==ℤ minus_one)) ≡ false)
        × (lotions_owned h.lotions msg.use_lotions ≡ true))
enter_then_exit c h chapter section admin msg e =
    let h' = (enter_game c h chapter section admin).0 in
    let s = enter_game_lem c h chapter section admin e in
    rw (exit_error-ack c h' msg) (entered_error h' msg chapter section h.lotions s.0 s.1 s.2)
