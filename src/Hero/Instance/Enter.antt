-- ===== src/Hero/Instance/Enter.antt =====
-- `EnterGame` of gameserver/DreamHero.cpp: the spirit and the section.
use dream_heroes.Base.{Bool, arith, false, if◌then◌else◌, refl, true, ◌&&◌, ◌≡◌, ◌≢◌, ◌⊎◌}
use dream_heroes.Base.Int.{==ℤ_iff, minus_one, pos, ℤ, ◌-ℤ◌, ◌<ℤ◌, ◌==ℤ◌, ◌≤ℤ◌, -ℤ_parts}
use dream_heroes.Config.{GameConfig}
use dream_heroes.Error.{can_not_enter_game_not_enough_spirit, error_no, is_no}
use dream_heroes.Hero.{DreamHero}
use dream_heroes.Hero.Instance.{EnterGameAck, enter_game, enter_game_error, enter_game_pay}

-- A hero that is let in stands in the section, with the lotions it had.
pub enter_game_lem :
    (c : GameConfig) (h : DreamHero) (chapter section : ℤ) (admin : Bool)
    → (enter_game c h chapter section admin).1.error ≡ error_no
    → let h' = (enter_game c h chapter section admin).0 in
      (h'.current_chapter ≡ chapter) × (h'.current_section ≡ section) × (h'.lotions ≡ h.lotions)
unfolding enter_game
enter_game_lem c h chapter section admin e = ground arith

-- What entering has done: let in, the hero stands in the section and its spirit has fallen by the price,
-- to no less than zero, and it is an administrator, enters the section (-1, -1), or has the spirit that is asked
-- for; refused, it is none of these, and as it was.
abbrev pub EnterOutcome : GameConfig → DreamHero → ℤ → ℤ → Bool → DreamHero → EnterGameAck → Type 0
EnterOutcome c h chapter section admin h' ack =
    ((ack.error ≡ error_no)
      × (h'.current_chapter ≡ chapter)
      × (h'.current_section ≡ section)
      × (pos 0 ≤ℤ h'.spirit)
      × ((h'.spirit ≡ h.spirit -ℤ c.config_enter_game_use_spirit)
          ⊎ ((h'.spirit ≡ pos 0) × (h.spirit <ℤ c.config_enter_game_use_spirit)))
      × (h'.gold ≡ h.gold)
      × ((admin ≡ true)
          ⊎ ((chapter ≡ minus_one) × (section ≡ minus_one))
          ⊎ (c.config_enter_game_use_spirit ≡ pos 0)
          ⊎ (c.config_enter_game_use_spirit ≤ℤ h.spirit)))
    ⊎ ((ack.error ≡ can_not_enter_game_not_enough_spirit)
        × (admin ≡ false)
        × (((chapter ==ℤ minus_one) && (section ==ℤ minus_one)) ≡ false)
        × (c.config_enter_game_use_spirit ≢ pos 0)
        × (h.spirit <ℤ c.config_enter_game_use_spirit)
        × (h' ≡ h))

-- A hero is let in exactly if it is an administrator's entrance, or into the section (-1, -1), or if no spirit is
-- asked for, or the hero has the spirit that is asked for; its spirit then falls by the price, to no less than
-- zero, and the gold does not change. Every other hero is refused for want of spirit, and nothing changes.
pub enter_game_outcome :
    (c : GameConfig) (h : DreamHero) (chapter section : ℤ) (admin : Bool)
    → let (h', ack) = enter_game c h chapter section admin in
      EnterOutcome c h chapter section admin h' ack
unfolding enter_game
enter_game_outcome c h chapter section admin = ground (
  arith,
  -ℤ_parts h.spirit c.config_enter_game_use_spirit,
  ==ℤ_iff chapter minus_one,
  ==ℤ_iff section minus_one,
  ==ℤ_iff c.config_enter_game_use_spirit (pos 0),
)

pub enter_game-level :
    (c : GameConfig) (h : DreamHero) (chapter section : ℤ) (admin : Bool)
    → (enter_game c h chapter section admin).0.gm_level ≡ h.gm_level
unfolding enter_game enter_game_pay
enter_game-level c h chapter section admin =
    entered (is_no (enter_game_error c h chapter section admin))
  where
    entered :
        (b : Bool) → (if b then enter_game_pay c h chapter section else h).gm_level ≡ h.gm_level
    entered true = refl
    entered false = refl
