-- ===== src/Hero/Play.antt =====
-- Sequences of requests of gameserver/DreamHero.cpp that spend a player's balances, in any order, with the
-- ends of sections and the recovery of spirit between them.
use dream_heroes.Base.{Bool, true}
use dream_heroes.Base.Int.{pos, ℤ, ◌≤ℤ◌}
use dream_heroes.Base.Map.{Map}
use dream_heroes.Config.{Env, GameConfig}
use dream_heroes.Hero.{DreamHero, IsSolvent}
use dream_heroes.Hero.Daily.{req_reset_daily_game_progress}
use dream_heroes.Hero.Daily.Solvent.{reset_daily-IsSolvent}
use dream_heroes.Hero.Exit.{ExitGameReq, req_exit_game}
use dream_heroes.Hero.Exit.Solvent.{GivesGold, req_exit_game-IsSolvent}
use dream_heroes.Hero.Instance.{enter_game, req_unlock_chapter}
use dream_heroes.Hero.Instance.Solvent.{enter_game-IsSolvent, req_unlock_chapter-IsSolvent}
use dream_heroes.Hero.Rewards.{recover_spirit}
use dream_heroes.Hero.Rewards.Solvent.{recover_spirit-IsSolvent}
use dream_heroes.Hero.Shop.{req_buy_hero, req_buy_lotion, req_buy_spirit, req_relive_req}
use dream_heroes.Hero.Shop.Solvent.{
  GivesSpirit, req_buy_hero-IsSolvent, req_buy_lotion-IsSolvent, req_buy_spirit-IsSolvent,
  req_relive_req-IsSolvent,
}
use dream_heroes.Hero.Tasks.{refresh_task}
use dream_heroes.Hero.Tasks.Solvent.{refresh_task-IsSolvent}

-- The amounts of the configuration that are given, and not taken, are not negative.
pub record HasFairAmounts (c : GameConfig) : Type 0 where
  pub spirit_shop : GivesSpirit c.spirit_shop
  pub gifts : GivesGold c.tasks
  pub recover : pos 0 ≤ℤ c.config_recover_spirit

-- One request, at a time and with promotions of its own. A task is asked for with the gold flag, and the
-- report of a section names gold that is not negative.
pub data Step (c : GameConfig) : DreamHero → DreamHero → Type 0 where
  step_buy_hero :
      (h : DreamHero) (cheap : Map ℤ ℤ) (grid price : ℤ)
      → Step c h (req_buy_hero c cheap h grid price).0
  step_buy_spirit :
      (h : DreamHero) (env : Env) (index : ℤ) → Step c h (req_buy_spirit c env h index).0
  step_buy_lotion : (h : DreamHero) (id : ℤ) → Step c h (req_buy_lotion c h id).0
  step_relive : (h : DreamHero) → Step c h (req_relive_req c h).0
  step_unlock : (h : DreamHero) (id : ℤ) → Step c h (req_unlock_chapter c h id).0
  step_enter :
      (h : DreamHero) (chapter section : ℤ) (admin : Bool)
      → Step c h (enter_game c h chapter section admin).0
  step_exit :
      (h : DreamHero) (msg : ExitGameReq) → pos 0 ≤ℤ msg.gold → Step c h (req_exit_game c h msg).0
  step_refresh : (h : DreamHero) (env : Env) (id : ℤ) → Step c h (refresh_task c env h id true).0
  step_reset : (h : DreamHero) (env : Env) → Step c h (req_reset_daily_game_progress c env h).0
  step_recover : (h : DreamHero) (env : Env) → Step c h (recover_spirit c env h).0

pub data Reach (c : GameConfig) (s : DreamHero) : DreamHero → Type 0 where
  start : Reach c s s
  after : {t u : DreamHero} → Reach c s t → Step c t u → Reach c s u

Step-IsSolvent :
    (c : GameConfig)
    → HasFairAmounts c
    → {h h' : DreamHero} → Step c h h'
    → IsSolvent h
    → IsSolvent h'
Step-IsSolvent c f (step_buy_hero h cheap grid price) s =
    req_buy_hero-IsSolvent c cheap h grid price s
Step-IsSolvent c f (step_buy_spirit h env index) s =
    req_buy_spirit-IsSolvent c env h index f.spirit_shop s
Step-IsSolvent c f (step_buy_lotion h id) s = req_buy_lotion-IsSolvent c h id s
Step-IsSolvent c f (step_relive h) s = req_relive_req-IsSolvent c h s
Step-IsSolvent c f (step_unlock h id) s = req_unlock_chapter-IsSolvent c h id s
Step-IsSolvent c f (step_enter h chapter section admin) s =
    enter_game-IsSolvent c h chapter section admin s
Step-IsSolvent c f (step_exit h msg p) s = req_exit_game-IsSolvent c h msg f.gifts p s
Step-IsSolvent c f (step_refresh h env id) s = refresh_task-IsSolvent c env h id s
Step-IsSolvent c f (step_reset h env) s = reset_daily-IsSolvent c env h s
Step-IsSolvent c f (step_recover h env) s = recover_spirit-IsSolvent c env h f.recover s

-- However a player combines purchases, revivals, unlocked chapters, entered and left sections, paid tasks,
-- resets of the daily game and recoveries of spirit, gold, jewels and spirit never become negative, if they
-- were not negative at the start, no configured gift is negative, tasks are asked for with the gold flag and
-- the reports of sections name gold that is not negative.
pub Reach-IsSolvent :
    (c : GameConfig) (s t : DreamHero) → HasFairAmounts c → IsSolvent s → Reach c s t → IsSolvent t
Reach-IsSolvent c s t f solvent start = solvent
Reach-IsSolvent c s t f solvent (after {t = m} r step) =
    Step-IsSolvent c f step (Reach-IsSolvent c s m f solvent r)
