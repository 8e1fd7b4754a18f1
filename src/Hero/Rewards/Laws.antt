-- ===== src/Hero/Rewards/Laws.antt =====
-- The gifts and the adjustments of Hero/Rewards.
use dream_heroes.Base.{
  Bytes, Option, arith, false, get_elem?, get_elem?-IsFound, none, some, true, ◌≡◌, ◌≢◌, ◌⊎◌,
}
use dream_heroes.Base.Int.{+ℤ_parts, +ℤ_zero, ==ℤ_iff, negsuc, pos, ℤ, ◌+ℤ◌, ◌≤ℤ◌}
use dream_heroes.Config.{Env, GameConfig}
use dream_heroes.Error.{
  GameError, error_no, failed_to_concern_wei_xin_have_been_concerned_wei_xin,
  failed_to_received_daily_game_prize_no_prize,
}
use dream_heroes.Hero.{DreamHero}
use dream_heroes.Hero.Rewards.{
  ModifyCurrentHeroAck, recover_spirit, req_concern_wei_xin, req_modify_current_hero,
  req_receive_daily_game_prize,
}

-- Receiving the prize moves it to the gold: the sum of both is unchanged, nothing is left to receive, and
-- a second request is refused and leaves the hero as it is.
receive_prize_once :
    (h : DreamHero)
    → let h' = (req_receive_daily_game_prize h).0 in
      (h'.gold +ℤ h'.daily_game_gold ≡ h.gold +ℤ h.daily_game_gold)
      × (h'.daily_game_gold ≡ pos 0)
      × ((req_receive_daily_game_prize h').1.error ≡ failed_to_received_daily_game_prize_no_prize)
      × ((req_receive_daily_game_prize h').0 ≡ h')
unfolding req_receive_daily_game_prize
receive_prize_once h =
    ground (arith, ==ℤ_iff h.daily_game_gold (pos 0), +ℤ_zero (h.gold +ℤ h.daily_game_gold))

-- What a request for the gift has done, which either gave it, so that it is not given again, or changed nothing.
abbrev pub GiftOnce : GameConfig → DreamHero → Bytes → DreamHero → GameError → Type 0
GiftOnce c h again h' error =
    ((error ≡ error_no)
      × (h.concern_weixin ≡ false)
      × (h'.gold ≡ h.gold +ℤ c.config_weixin_gold)
      × ((req_concern_wei_xin c h' again).1.error
          ≡ failed_to_concern_wei_xin_have_been_concerned_wei_xin)
      × ((req_concern_wei_xin c h' again).0 ≡ h'))
    ⊎ ((error ≢ error_no) × (h' ≡ h))

concern_wei_xin-GiftOnce :
    (c : GameConfig) (h : DreamHero) (cd_key again : Bytes)
    → let (h', ack) = req_concern_wei_xin c h cd_key in GiftOnce c h again h' ack.error
unfolding req_concern_wei_xin
concern_wei_xin-GiftOnce c h cd_key again = ground arith

-- Both gifts are given once, to every hero. Receiving the prize moves it to the gold: the sum of both is unchanged,
-- nothing is left to receive, and a second request is refused and leaves the hero as it is. A request for the gift
-- for following the WeiXin account either gives the configured gold, to a hero that has not had the gift, after
-- which every further request is refused and leaves the hero as it is, or is answered with an error and changes
-- nothing.
pub gifts_once :
    (c : GameConfig) (h : DreamHero) (cd_key again : Bytes)
    → let prize = (req_receive_daily_game_prize h).0 in
      let (gift, ack) = req_concern_wei_xin c h cd_key in
      ((prize.gold +ℤ prize.daily_game_gold ≡ h.gold +ℤ h.daily_game_gold)
        × (prize.daily_game_gold ≡ pos 0)
        × ((req_receive_daily_game_prize prize).1.error
            ≡ failed_to_received_daily_game_prize_no_prize)
        × ((req_receive_daily_game_prize prize).0 ≡ prize))
      × GiftOnce c h again gift ack.error
gifts_once c h cd_key again = (receive_prize_once h, concern_wei_xin-GiftOnce c h cd_key again)

-- Where the configured amount is not negative, recovering spirit never lowers it, and never raises it above
-- the configured maximum: spirit above the maximum stays, and spirit below it stays within it.
pub recover_spirit_bounds :
    (c : GameConfig) (env : Env) (h : DreamHero)
    → pos 0 ≤ℤ c.config_recover_spirit
    → let (h', spirit) = recover_spirit c env h in
      (h'.spirit ≡ spirit)
      × (h.spirit ≤ℤ spirit)
      × ((spirit ≡ h.spirit) ⊎ (spirit ≤ℤ c.config_max_spirit))
unfolding recover_spirit
recover_spirit_bounds c env h p = ground (arith, +ℤ_parts h.spirit c.config_recover_spirit)

-- What choosing a grid does; `none` is a read outside the list of heroes.
abbrev pub Chosen : DreamHero → ℤ → Option (DreamHero × ModifyCurrentHeroAck) → Type 0
Chosen h (negsuc n) o = o ≡ none
Chosen h (pos i) none = ⊥
Chosen h (pos i) (some (h', ack)) =
    ((get_elem? h.heroes i ≡ some true) × (h'.current_hero ≡ pos i) × (ack.error ≡ error_no))
    ⊎ ((get_elem? h.heroes i ≢ some true) × (h' ≡ h) × (ack.error ≢ error_no))

-- A hero is chosen by a grid that is no negative number exactly if the grid is unlocked; otherwise the
-- request is refused and changes nothing. Every negative grid passes the test of the length and reaches a
-- read outside the list of heroes.
modify_current_hero_outcome :
    (h : DreamHero) (grid_id : ℤ) → Chosen h grid_id (req_modify_current_hero h grid_id)
unfolding req_modify_current_hero
modify_current_hero_outcome h (pos i) = ground (arith, get_elem?-IsFound h.heroes i)
modify_current_hero_outcome h (negsuc n) = ground arith
