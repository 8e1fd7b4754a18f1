-- ===== src/Hero/Rewards/Solvent.antt =====
-- The balances after `recoverSpirit` of gameserver/DreamHero.cpp.
use dream_heroes.Base.{arith}
use dream_heroes.Base.Int.{+ℤ_parts, pos, ◌≤ℤ◌}
use dream_heroes.Config.{Env, GameConfig}
use dream_heroes.Hero.{DreamHero, IsSolvent}
use dream_heroes.Hero.Rewards.{recover_spirit}

pub recover_spirit-IsSolvent :
    (c : GameConfig) (env : Env) (h : DreamHero)
    → pos 0 ≤ℤ c.config_recover_spirit
    → IsSolvent h
    → IsSolvent (recover_spirit c env h).0
unfolding recover_spirit
recover_spirit-IsSolvent c env h p s = ground (arith, +ℤ_parts h.spirit c.config_recover_spirit)
